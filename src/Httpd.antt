-- ===== src/Httpd.antt =====
-- plugins/output_http: the HTTP server. One module for each part of httpd.c.
pub mod Base64
pub mod Cgi
pub mod Clients
pub mod Command
pub mod Files
pub mod Iobuffer
pub mod Json
pub mod Print
pub mod Request
pub mod Response
pub mod Stream
pub mod Unescape
pub mod Webcam
