-- ===== src/Httpd/Request/Range.antt =====
-- The number of a plugin behind its check, and the actions that use it.
use mjpg_streamer.Common.{
  ℕ, suc, ◌+◌, ◌<◌, ◌≡◌, refl, sym, ap, ◌∙◌, Bool, true, false, List, [], ◌∷◌, ◌++◌, Option, none,
  some, length, take, get_or, All, arith, Bool-cases, Option-cases, inl, inr, length-take,
  some-injective,
}
use mjpg_streamer.Common.Int.{pos, ltb_ℤ}
use mjpg_streamer.Common.Text.{Bytes, codes, strchr, contains}
use mathlib.Core.Bool.{true≢false}
use mjpg_streamer.Httpd.Request.{
  AnswerType, unknown, snapshot, snapshot_wxp, stream, stream_wxp, command, file, cgi, take_picture,
  input_json, output_json, program_json, clients_json, Build, Action, send_error, send_snapshot,
  send_stream, send_stream_wxp, run_command, send_input_json, send_output_json, send_program_json,
  send_clients_json, send_file, execute_cgi, save_picture, fine, Request, digit_value, is_wxp,
  plugin_number, Config, authorized, Plugins, is_output, check_number, take_filename, file_plugin,
  take_actions, dispatch, answer_request,
}
use mjpg_streamer.Httpd.Request.Shape.{InRange, IsError, numbered, Shape}

pub plugin_number-pos :
    (r : Request) (buffer : Bytes)
    → is_wxp r.type ≡ false
    → (k : ℕ) × (plugin_number r buffer ≡ pos k)
unfolding plugin_number
plugin_number-pos r buffer h = elim (Option-cases (strchr buffer b'_')) [
  | inl absent ↦ (0, rw (absent, plugin_number))
  | inr (sch, found) ↦ elim (Bool-cases r.query_suffixed) [
    | inl suffixed ↦ (digit_value (get_or sch 1 0), rw (found, plugin_number) (rw (suffixed, h)))
    | inr plain ↦ (0, rw (found, plugin_number) (rw plain))
  ]
]

-- After the check of the number the type uses it only if it is in range.
record Ready (p : Plugins) (r : Request) (k : ℕ) : Type 0 where
  errors : All IsError r.sent
  plain : is_wxp r.type ≡ false
  input_ok : numbered r.type ≡ true → is_output r.type ≡ false → k < p.incnt
  output_ok : numbered r.type ≡ true → is_output r.type ≡ true → k < p.outcnt

pub append-IsError :
    (xs : List Action) (a : Action) → All IsError xs → IsError a → All IsError (xs ++ a ∷ [])
append-IsError [] a h e = (e, tt)
append-IsError (x ∷ xs) a (h, t) e = (h, append-IsError xs a t e)

check_number-Ready :
    (p : Plugins) (r : Request) (k : ℕ) → Shape r → Ready p (check_number p r (pos k)) k
unfolding check_number
check_number-Ready p r k s = elim (Bool-cases r.query_suffixed) [
  | inr plain ↦ rw plain (record {
    errors = s.errors;
    plain = s.plain;
    input_ok = λ e _. cc (s.suffixed e);
    output_ok = λ e _. cc (s.suffixed e);
  })
  | inl suffixed ↦ elim (Bool-cases (is_output r.type)) [
    | inl out ↦ elim (Bool-cases (ltb_ℤ (pos k) (pos p.outcnt))) [
      | inl fits ↦
          rw (suffixed, out, fits)
            (record {
              errors = s.errors;
              plain = s.plain;
              input_ok = λ e e'. cc;
              output_ok = λ e e'. ground arith;
            })
      | inr over ↦
          rw (suffixed, out, over)
            (record {
              errors = append-IsError r.sent _ s.errors tt;
              plain = refl;
              input_ok = λ e e'. cc;
              output_ok = λ e e'. cc;
            })
    ]
    | inr inp ↦ elim (Bool-cases (ltb_ℤ (pos k) (pos p.incnt))) [
      | inl fits ↦
          rw (suffixed, inp, fits)
            (record {
              errors = s.errors;
              plain = s.plain;
              input_ok = λ e e'. ground arith;
              output_ok = λ e e'. cc;
            })
      | inr over ↦
          rw (suffixed, inp, over)
            (record {
              errors = append-IsError r.sent _ s.errors tt;
              plain = refl;
              input_ok = λ e e'. cc;
              output_ok = λ e e'. cc;
            })
    ]
  ]
]

pub error-InRange : (p : Plugins) (a : Action) → IsError a → InRange p a
error-InRange p (send_error _ _) h = tt
error-InRange p fine h = tt
error-InRange p (send_snapshot n) h = absurd h
error-InRange p (send_stream n) h = absurd h
error-InRange p (send_input_json n) h = absurd h
error-InRange p (send_output_json n) h = absurd h
error-InRange p (save_picture i name) h = absurd h
error-InRange p (send_stream_wxp n) h = absurd h
error-InRange p (run_command c) h = absurd h
error-InRange p send_program_json h = absurd h
error-InRange p send_clients_json h = absurd h
error-InRange p (send_file c) h = absurd h
error-InRange p (execute_cgi c q) h = absurd h

errors-InRange :
    (p : Plugins) (xs ys : List Action)
    → All IsError xs
    → All (InRange p) ys
    → All (InRange p) (xs ++ ys)
errors-InRange p [] ys h k = k
errors-InRange p (x ∷ xs) ys (h, t) k = (error-InRange p x h, errors-InRange p xs ys t k)

file_plugin-lt :
    (names : List (Option Bytes)) (i j : ℕ) → file_plugin i names ≡ some j → j < i + length names
unfolding file_plugin
file_plugin-lt [] i j e = cc
file_plugin-lt (none ∷ names) i j e = omega (arith, file_plugin-lt names (suc i) j e)
file_plugin-lt (some name ∷ names) i j e =
    elim (Bool-cases (contains name (codes "FILE output plugin"))) [
      | inl here ↦ let e' : i ≡ j = some-injective i j (rw here at e) in omega arith
      | inr later ↦ omega (arith, file_plugin-lt names (suc i) j (rw later at e))
    ]

take_actions-InRange :
    (p : Plugins) (saved : Bool) (r : Request) (k : ℕ)
    → k < p.incnt
    → All (InRange p) (take_actions p saved r (pos k))
unfolding take_actions
take_actions-InRange p saved r k h =
    elim (Option-cases (file_plugin 0 (take p.outcnt p.output_names))) [
      | inl missing ↦ rw (missing, All, take_actions) (tt, tt)
      | inr (i, found) ↦
          let below : i < p.outcnt = omega (
            arith,
            file_plugin-lt (take p.outcnt p.output_names) 0 i found,
            length-take p.outcnt p.output_names,
          ) in
          elim (Option-cases (take_filename r.parameter)) [
            | inl unnamed ↦ rw (found, All, take_actions) (rw (unnamed, All) (tt, (h, tt)))
            | inr (name, named) ↦ elim (Bool-cases saved) [
              | inl done ↦
                  rw (found, All, take_actions) (rw (named, All) (rw done (below, (h, tt))))
              | inr failed ↦
                  rw (found, All, take_actions) (rw (named, All) (rw failed (below, (tt, tt))))
            ]
          ]
    ]

dispatch-InRange :
    (b : Build) (conf : Config) (p : Plugins) (saved : Bool) (r : Request) (k : ℕ) (t : AnswerType)
    → r.type ≡ t
    → Ready p r k
    → All (InRange p) (dispatch b conf p saved r (pos k) t)
unfolding dispatch
dispatch-InRange b conf p saved r k snapshot e h = (h.input_ok (rw e) (rw e), tt)
dispatch-InRange b conf p saved r k snapshot_wxp e h =
    absurd (true≢false (sym (ap is_wxp e) ∙ h.plain))
dispatch-InRange b conf p saved r k stream e h = (h.input_ok (rw e) (rw e), tt)
dispatch-InRange b conf p saved r k stream_wxp e h =
    absurd (true≢false (sym (ap is_wxp e) ∙ h.plain))
dispatch-InRange b conf p saved r k command e h = elim (Bool-cases conf.nocommands) [
  | inl off ↦ rw off (tt, tt)
  | inr on ↦ rw on (tt, tt)
]
dispatch-InRange b conf p saved r k input_json e h = (h.input_ok (rw e) (rw e), tt)
dispatch-InRange b conf p saved r k output_json e h = (h.output_ok (rw e) (rw e), tt)
dispatch-InRange b conf p saved r k program_json e h = (tt, tt)
dispatch-InRange b conf p saved r k clients_json e h = elim (Bool-cases b.managment) [
  | inl on ↦ rw on (tt, tt)
  | inr off ↦ rw off tt
]
dispatch-InRange b conf p saved r k file e h = elim (Option-cases conf.www_folder) [
  | inl none_set ↦ rw (none_set, All, dispatch) (tt, tt)
  | inr (folder, set_to) ↦ rw (set_to, All, dispatch) (tt, tt)
]
dispatch-InRange b conf p saved r k take_picture e h =
    take_actions-InRange p saved r k (h.input_ok (rw e) (rw e))
dispatch-InRange b conf p saved r k cgi e h = (tt, tt)
dispatch-InRange b conf p saved r k unknown e h = tt

pub answer_request-InRange :
    (b : Build) (conf : Config) (p : Plugins) (saved : Bool) (given : Option Bytes) (r : Request)
    (k : ℕ)
    → Shape r
    → All (InRange p) (answer_request b conf p saved given r (pos k))
unfolding answer_request
answer_request-InRange b conf p saved given r k s = elim (Bool-cases (authorized conf given)) [
  | inl granted ↦
      let ready = check_number-Ready p r k s in
      rw granted (
        errors-InRange p (check_number p r (pos k)).sent _ ready.errors (
          dispatch-InRange b conf p saved (check_number p r (pos k)) k
            (check_number p r (pos k)).type refl ready))
  | inr denied ↦ rw denied (errors-InRange p r.sent _ s.errors (tt, tt))
]
