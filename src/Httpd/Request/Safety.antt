-- ===== src/Httpd/Request/Safety.antt =====
-- What the answer to a request can reach: loaded plugins only, names of files without a path, and nothing
-- without the credentials.
use mjpg_streamer.Common.{
  ◌≡◌, ◌≢◌, refl, sym, ap, ◌∙◌, Bool, true, false, List, [], ◌∷◌, Option, none, some, All,
  Bool-cases, Option-cases, inl, inr, ◌⊎◌, subst,
}
use mjpg_streamer.Common.Text.{Bytes, str_eq_iff}
use mjpg_streamer.Httpd.Request.{
  Build, Action, Request, Parsed, parsed, refused, classify, Config, authorized, Plugins,
  answer_request, client_thread, read_headers,
}
use mjpg_streamer.Httpd.Request.Shape.{
  InRange, IsError, Shape, Shaped, classify-Shaped, accepted, rejected,
}
use mjpg_streamer.Httpd.Request.Range.{
  plugin_number-pos, append-IsError, error-InRange, answer_request-InRange,
}

parsed-Shape : {r : Request} {q : Parsed} → Shaped q → q ≡ parsed r → Shape r
parsed-Shape (accepted s) e = subst Shape (cc) s
parsed-Shape (rejected h) e = cc

Parsed-cases : (q : Parsed) → ((r : Request) × (q ≡ parsed r)) ⊎ ((e : Action) × (q ≡ refused e))
Parsed-cases (parsed r) = inl (r, refl)
Parsed-cases (refused e) = inr (e, refl)

refused-IsError : {e : Action} {q : Parsed} → Shaped q → q ≡ refused e → IsError e
refused-IsError (accepted s) h = cc
refused-IsError (rejected k) h = subst IsError (cc) k

errors-All : (p : Plugins) (xs : List Action) → All IsError xs → All (InRange p) xs
errors-All p [] h = tt
errors-All p (x ∷ xs) (h, t) = (error-InRange p x h, errors-All p xs t)

-- Without WXP_COMPAT, whatever a client sends: every snapshot, stream, JSON document and saved picture
-- that the server turns to belongs to a plugin that is loaded.
pub client_thread-InRange :
    (b : Build) (conf : Config) (p : Plugins) (cheating saved : Bool) (buffer : Bytes)
    (lines : List Bytes)
    → b.wxp_compat ≡ false
    → All (InRange p) (client_thread b conf p cheating saved buffer lines)
unfolding client_thread
client_thread-InRange b conf p cheating saved buffer lines off =
    let shaped = classify-Shaped b cheating buffer off in
    elim (Parsed-cases (classify b cheating buffer)) [
      | inr (e, refusal) ↦
          rw (refusal, All, client_thread) (error-InRange p e (refused-IsError shaped refusal), tt)
      | inl (r, accept) ↦
          let s = parsed-Shape shaped accept in
          let (k, number) = plugin_number-pos r buffer s.plain in
          elim (Option-cases (read_headers none lines)) [
            | inl cut ↦
                rw (accept, All, client_thread) (rw (cut, All) (errors-All p r.sent s.errors))
            | inr (given, read) ↦
                rw (accept, All, client_thread)
                  (rw (read, number) (answer_request-InRange b conf p saved given r k s))
          ]
    ]

-- Whether the credentials that are configured let a request with the given ones through.
authorized-wanted :
    (conf : Config) (wanted : Bytes) (given : Option Bytes)
    → conf.credentials ≡ some wanted
    → authorized conf given ≡ true
    → given ≡ some wanted
unfolding authorized
authorized-wanted conf wanted none e h = cc (rw e at h)
authorized-wanted conf wanted (some g) e h =
    let (there, _) = str_eq_iff wanted g in ap some (sym (there (rw e at h)))

-- A list of actions in which nothing but errors is sent: no picture, no file, no command.
abbrev pub OnlyErrors : List Action → Type 0
OnlyErrors = All IsError

-- With credentials configured and without WXP_COMPAT: if the header lines do not give exactly these
-- credentials, the client gets error pages and nothing else, whatever it asks for.
pub client_thread-OnlyErrors :
    (b : Build) (conf : Config) (p : Plugins) (cheating saved : Bool) (buffer wanted : Bytes)
    (lines : List Bytes)
    → b.wxp_compat ≡ false
    → conf.credentials ≡ some wanted
    → read_headers none lines ≢ some (some wanted)
    → OnlyErrors (client_thread b conf p cheating saved buffer lines)
unfolding client_thread answer_request
client_thread-OnlyErrors b conf p cheating saved buffer wanted lines off set_to wrong =
    let shaped = classify-Shaped b cheating buffer off in
    elim (Parsed-cases (classify b cheating buffer)) [
      | inr (e, refusal) ↦ rw (refusal, All, client_thread) (refused-IsError shaped refusal, tt)
      | inl (r, accept) ↦
          let s = parsed-Shape shaped accept in
          elim (Option-cases (read_headers none lines)) [
            | inl cut ↦ rw (accept, All, client_thread) (rw (cut, All) s.errors)
            | inr (given, read) ↦ elim (Bool-cases (authorized conf given)) [
              | inl granted ↦
                  absurd
                    (wrong (read ∙ ap some (authorized-wanted conf wanted given set_to granted)))
              | inr denied ↦
                  rw (accept, All, client_thread)
                    (rw read (rw denied (append-IsError r.sent _ s.errors tt)))
            ]
          ]
    ]
