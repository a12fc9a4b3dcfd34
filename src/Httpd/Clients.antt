-- ===== src/Httpd/Clients.antt =====
-- The table of clients of httpd.c, which MANAGMENT compiles in: add_client, check_client_status and
-- update_client_timestamp. A pointer into the table is an index. malloc does not fail. `tv_sec` and
-- `tv_usec` are integers. A call holds the table's mutex throughout and is one step.
use mjpg_streamer.Common.{
  ℕ, suc, ◌/◌, ◌≡◌, ◌≢◌, refl, ap, sym, ◌⊎◌, inl, inr, ◌&&◌, Bool, false, List, [], ◌∷◌, ◌++◌, none,
  some, get_elem?, set, if◌then◌else◌, All, Bool-cases,
}
use mjpg_streamer.Common.Int.{ℤ, pos, negsuc, ◌+ℤ◌, ◌-ℤ◌, ◌*ℤ◌, ltb_ℤ}
use mjpg_streamer.Common.Text.{Bytes, str_eq, str_eq_iff}

-- struct timeval
pub record Timeval : Type 0 where
  pub tv_sec : ℤ
  pub tv_usec : ℤ

-- client_info
pub record ClientInfo : Type 0 where
  pub address : Bytes
  pub last_take_time : Timeval

-- What add_client returns, and the table.
pub record Added : Type 0 where
  pub client : ℕ
  pub infos : List ClientInfo

abbrev pub under_one_more : ClientInfo → Added → Added
under_one_more c a = record { client = suc a.client; infos = c ∷ a.infos }

-- The loop over the table, and the new entry at its end.
unfoldable pub add_client : Bytes → List ClientInfo → Added
add_client address [] = record {
  client = 0;
  infos =
      record { address = address; last_take_time = record { tv_sec = pos 0; tv_usec = pos 0 } }
      ∷ [];
}
add_client address (c ∷ infos) =
    let later = add_client address infos in
    if str_eq c.address address
    then record { client = 0; infos = c ∷ infos }
    else under_one_more c later

-- Division by 1000, towards zero.
unfoldable pub div_1000 : ℤ → ℤ
unfolding ◌-ℤ◌
div_1000 (pos n) = pos (n / 1000)
div_1000 (negsuc n) = pos 0 -ℤ pos (suc n / 1000)

unfoldable pub elapsed_msec : Timeval → Timeval → ℤ
unfolding div_1000 ◌+ℤ◌ ◌-ℤ◌ ◌*ℤ◌
elapsed_msec now last =
    ((now.tv_sec -ℤ last.tv_sec) *ℤ pos 1000) +ℤ div_1000 (now.tv_usec -ℤ last.tv_usec)

-- Whether the client was served within the last second.
unfoldable pub check_client_status : Timeval → ℕ → List ClientInfo → Bool
unfolding elapsed_msec
check_client_status now client infos = elim (get_elem? infos client) [
  | none ↦ false
  | some c ↦
      let msec = elapsed_msec now c.last_take_time in ltb_ℤ msec (pos 1000) && ltb_ℤ (pos 0) msec
]

unfoldable pub update_client_timestamp : Timeval → ℕ → List ClientInfo → List ClientInfo
update_client_timestamp now client infos = elim (get_elem? infos client) [
  | none ↦ infos
  | some c ↦ set infos client (record c { last_take_time = now })
]

-- No two entries have the same address.
abbrev pub Distinct : List ClientInfo → Type 0
Distinct [] = Unit
Distinct (c ∷ infos) = All (λ d. d.address ≢ c.address) infos × Distinct infos

added-All :
    (address : Bytes) (other : Bytes) (infos : List ClientInfo)
    → address ≢ other
    → All (λ d. d.address ≢ other) infos
    → All (λ d. d.address ≢ other) (add_client address infos).infos
unfolding add_client
added-All address other [] ne h = (ne, tt)
added-All address other (c ∷ infos) ne (h, t) = elim (Bool-cases (str_eq c.address address)) [
  | inl same ↦ rw same (h, t)
  | inr differs ↦ rw differs (h, added-All address other infos ne t)
]

-- What a call leaves: distinct addresses, with the client's own at the place that is returned, and the
-- entries that were there before in their places.
pub record Registered (address : Bytes) (before : List ClientInfo) (a : Added) : Type 0 where
  pub distinct : Distinct a.infos
  pub found : (c : ClientInfo) × (get_elem? a.infos a.client ≡ some c) × (c.address ≡ address)
  pub kept : (a.infos ≡ before) ⊎ ((c : ClientInfo) × (a.infos ≡ before ++ c ∷ []))

-- A table in which no two entries have the same address keeps this when a client connects; the client gets the entry
-- with its address, and at most one entry is new, the last.
pub add_client-Registered :
    (address : Bytes) (infos : List ClientInfo)
    → Distinct infos
    → Registered address infos (add_client address infos)
unfolding add_client
add_client-Registered address [] d = record {
  distinct = (tt, tt);
  found = (_, refl, refl);
  kept = inr (_, refl);
}
add_client-Registered address (c ∷ infos) (h, d) = elim (Bool-cases (str_eq c.address address)) [
  | inl same ↦ rw same (record {
    distinct = (h, d);
    found = (c, refl, (str_eq_iff c.address address).0 same);
    kept = inl refl;
  })
  | inr differs ↦
      let r = add_client-Registered address infos d in
      let ne : address ≢ c.address = λ e. cc ((str_eq_iff c.address address).1 (sym e)) in
      rw differs (record {
        distinct = (added-All address c.address infos ne h, r.distinct);
        found = r.found;
        kept = elim r.kept [
          | inl same ↦ inl (ap (◌∷◌ c) same)
          | inr (n, more) ↦ inr (n, ap (◌∷◌ c) more)
        ];
      })
]
