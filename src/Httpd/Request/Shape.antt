-- ===== src/Httpd/Request/Shape.antt =====
-- What the request line leaves, with WXP_COMPAT off.
use mjpg_streamer.Common.{
  ◌<◌, ◌≡◌, refl, sym, ◌∙◌, Bool, true, false, ◌&&◌, [], ◌∷◌, ◌++◌, length, drop, if◌then◌else◌,
  All, Bool-cases, Option-cases, inl, inr,
}
use mjpg_streamer.Common.Int.{pos, negsuc}
use mjpg_streamer.Common.Text.{Bytes, codes, strstr, contains}
use mjpg_streamer.Httpd.Unescape.{unescape}
use mjpg_streamer.Httpd.Request.{
  AnswerType, snapshot, snapshot_wxp, stream, stream_wxp, command, take_picture, input_json,
  output_json, program_json, clients_json, Build, Action, send_error, send_snapshot, send_stream,
  send_input_json, send_output_json, save_picture, fine, Request, command_bytes, asks,
  unless_cheating, parameter_after, Parsed, parsed, refused, with_parameter, file_request, classify,
  is_wxp, Plugins,
}

-- An action touches a loaded plugin, if it touches one.
abbrev pub InRange : Plugins → Action → Type 0
InRange p (send_snapshot (pos n)) = n < p.incnt
InRange p (send_snapshot (negsuc n)) = ⊥
InRange p (send_stream (pos n)) = n < p.incnt
InRange p (send_stream (negsuc n)) = ⊥
InRange p (send_input_json (pos n)) = n < p.incnt
InRange p (send_input_json (negsuc n)) = ⊥
InRange p (send_output_json (pos n)) = n < p.outcnt
InRange p (send_output_json (negsuc n)) = ⊥
InRange p (save_picture i name) = i < p.outcnt
InRange p _ = Unit

-- The actions that are error pages or the fine.
abbrev pub IsError : Action → Type 0
IsError (send_error _ _) = Unit
IsError fine = Unit
IsError _ = ⊥

-- The types whose answer uses the plugin number.
abbrev pub numbered : AnswerType → Bool
numbered snapshot = true
numbered snapshot_wxp = true
numbered stream = true
numbered stream_wxp = true
numbered input_json = true
numbered output_json = true
numbered take_picture = true
numbered _ = false

-- What the request line leaves, with WXP_COMPAT off.
pub record Shape (r : Request) : Type 0 where
  pub plain : is_wxp r.type ≡ false
  pub errors : All IsError r.sent
  pub suffixed : numbered r.type ≡ true → r.query_suffixed ≡ true

pub data Shaped : Parsed → Type 0 where
  accepted : {r : Request} → Shape r → Shaped (parsed r)
  rejected : {e : Action} → IsError e → Shaped (refused e)

if-Shaped : (c : Bool) (x y : Parsed) → Shaped x → Shaped y → Shaped (if c then x else y)
if-Shaped true x y h k = h
if-Shaped false x y h k = k

unless_cheating-Shape :
    (b : Build) (cheating : Bool) (t : AnswerType)
    → is_wxp t ≡ false
    → Shape (unless_cheating b cheating t)
unfolding unless_cheating
unless_cheating-Shape b cheating t h = elim (Bool-cases (b.managment && cheating)) [
  | inl refuse ↦ rw refuse (record { plain = refl; errors = (tt, (tt, tt)); suffixed = λ e. cc })
  | inr serve ↦ rw serve (record { plain = h; errors = tt; suffixed = λ e. refl })
]

with_parameter-Shaped :
    (buffer prefix : Bytes) (t : AnswerType) (suffixed : Bool)
    → is_wxp t ≡ false
    → (numbered t ≡ true → suffixed ≡ true)
    → Shaped (with_parameter buffer prefix t suffixed)
unfolding with_parameter
with_parameter-Shaped buffer prefix t suffixed h k = elim (Option-cases (strstr buffer prefix)) [
  | inl absent ↦ rw (absent, with_parameter) (rejected tt)
  | inr (rest, found) ↦
      rw (found, with_parameter)
        (elim (Option-cases
          (unescape (parameter_after buffer command_bytes (length prefix) rest ++ 0 ∷ []))) [
            | inl bad ↦ rw bad (rejected tt)
            | inr (p, good) ↦ rw good (accepted (record { plain = h; errors = tt; suffixed = k }))
          ])
]

file_request-Shaped : (buffer : Bytes) → Shaped (file_request buffer)
unfolding file_request
file_request-Shaped buffer = elim (Option-cases (strstr buffer (codes "GET /"))) [
  | inl absent ↦ rw (absent, file_request) (rejected tt)
  | inr (rest, found) ↦
      rw (found, file_request)
        (elim (Bool-cases (contains (drop 5 rest) (codes ".cgi"))) [
          | inl script ↦
              rw script (accepted (record { plain = refl; errors = tt; suffixed = λ e. cc }))
          | inr page ↦ rw page (accepted (record { plain = refl; errors = tt; suffixed = λ e. cc }))
        ])
]

pub classify-Shaped :
    (b : Build) (cheating : Bool) (buffer : Bytes)
    → b.wxp_compat ≡ false
    → Shaped (classify b cheating buffer)
unfolding classify
classify-Shaped b cheating buffer off =
    let cheap : (t : AnswerType)
        → is_wxp t ≡ false
        → Shaped (parsed (unless_cheating b cheating t)) =
      λ t h. accepted (unless_cheating-Shape b cheating t h) in
    let numbered_json : (t : AnswerType) → is_wxp t ≡ false → Shaped (parsed (asks t true)) =
      λ t h. accepted (record { plain = h; errors = tt; suffixed = λ e. refl }) in
    let other_json : (t : AnswerType)
        → is_wxp t ≡ false
        → numbered t ≡ false
        → Shaped (parsed (asks t false)) =
      λ t h k. accepted (record { plain = h; errors = tt; suffixed = λ e. sym k ∙ e }) in
    rw off (
      if-Shaped (contains buffer (codes "GET /?action=snapshot")) _ _ (cheap snapshot refl) (
        if-Shaped (contains buffer (codes "POST /stream")) _ _ (cheap stream refl) (
          if-Shaped (contains buffer (codes "GET /?action=stream")) _ _ (cheap stream refl) (
            if-Shaped (contains buffer (codes "GET /?action=take")) _ _
              (with_parameter-Shaped buffer (codes "GET /?action=take") take_picture true refl
                (λ e. refl))
              (if-Shaped (contains buffer (codes "GET /input") && contains buffer (codes ".json")) _
                _ (numbered_json input_json refl)
                (if-Shaped
                  (contains buffer (codes "GET /output") && contains buffer (codes ".json")) _ _
                  (numbered_json output_json refl)
                  (if-Shaped (contains buffer (codes "GET /program.json")) _ _
                    (other_json program_json refl refl)
                    (if-Shaped (b.managment && contains buffer (codes "GET /clients.json")) _ _
                      (other_json clients_json refl refl)
                      (if-Shaped (contains buffer (codes "GET /?action=command")) _ _
                        (with_parameter-Shaped buffer (codes "GET /?action=command") command false
                          refl (λ e. cc))
                        (file_request-Shaped buffer))))))))))
