-- ===== src/Uvc.antt =====
-- plugins/input_uvc: a camera's frame on its way to the readers. Table is the Huffman table of huffman.h, Picture
-- is_huffman and memcpy_picture of v4l2uvc.c, Camera uvcGrab and cam_thread of input_uvc.c,
-- Controls the V4L2 controls.
pub mod Table
pub mod Picture
pub mod Camera
pub mod Controls
