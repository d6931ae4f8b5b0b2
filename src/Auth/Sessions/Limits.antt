-- ===== src/Auth/Sessions/Limits.antt =====
-- How many sessions the index of a user holds after a session is added.
use aegis_core.Base.{
  ℕ, zero, suc, ◌-◌, ◌<◌, ◌≤◌, ◌≡◌, refl, ap, ◌∙◌, ◌&&◌, List, [], ◌∷◌, ltb, length, take, inl, inr,
  arith, Bool-cases,
}
use aegis_core.Base.Int.{pos, ltb_ℤ}
use aegis_core.Base.Text.{Uuid}
use aegis_core.Auth.Domain.{SessionId}
use aegis_core.Auth.Keyspace.{Backend, Laws, Member, session_key, user_sessions, without}
use aegis_core.Auth.Sessions.{ids, evict, trim, keep_index}

-- what one ZREM after the other leaves
abbrev drop_each : List SessionId → List Member → List Member
drop_each [] ms = ms
drop_each (i ∷ is) ms = drop_each is (without (i ∷ []) ms)

without-without :
    (i j : SessionId) (ms : List Member)
    → without (i ∷ []) (without (j ∷ []) ms) ≡ without (j ∷ []) (without (i ∷ []) ms)
without-without i j [] = refl
without-without i j (m ∷ ms) = let ih = without-without i j ms in ground (arith, ih)

length-without : (i : SessionId) (ms : List Member) → length (without (i ∷ []) ms) ≤ length ms
length-without i [] = omega arith
length-without i (m ∷ ms) = let ih = length-without i ms in ground (arith, ih)

drop_each-without :
    (is : List SessionId) (i : SessionId) (ms : List Member)
    → drop_each is (without (i ∷ []) ms) ≡ without (i ∷ []) (drop_each is ms)
drop_each-without [] i ms = refl
drop_each-without (j ∷ is) i ms =
    ap (drop_each is) (without-without j i ms) ∙ drop_each-without is i (without (j ∷ []) ms)

length-drop_each :
    (n : ℕ) (ms : List Member) → length (drop_each (ids (take n ms)) ms) ≤ length ms - n
length-drop_each zero ms = omega arith
length-drop_each (suc n) [] = omega arith
length-drop_each (suc n) (m ∷ ms) =
    let is = ids (take n ms) in
    let ih = length-drop_each n ms in
    let less = length-without m.id (drop_each is ms) in
    let self : without (m.id ∷ []) (m ∷ ms) ≡ without (m.id ∷ []) ms = ground arith in
    let step : length (drop_each is (without (m.id ∷ []) (m ∷ ms)))
        ≡ length (without (m.id ∷ []) (drop_each is ms)) =
      ap length (ap (drop_each is) self ∙ drop_each-without is m.id ms) in
    omega (arith, ih, less, step)

module _ {S V : Type 0} (b : Backend S V) (laws : Laws b) (u : Uuid) where
  zrange-evict :
      (is : List SessionId) (s : S)
      → b.zrange (user_sessions u) (evict b u is s) ≡ drop_each is (b.zrange (user_sessions u) s)
  unfolding evict
  zrange-evict [] s = refl
  zrange-evict (i ∷ is) s =
      zrange-evict is (b.zrem (user_sessions u) (i ∷ []) (b.del (session_key u i) s))
      ∙ ap (drop_each is) (
          laws.zrange-zrem (user_sessions u) (i ∷ []) (b.del (session_key u i) s)
          ∙ ap (without (i ∷ [])) (laws.zrange-del (session_key u i) (user_sessions u) s))

  trim-Capped :
      (m : ℕ) (s : S) → 0 < m → length (b.zrange (user_sessions u) (trim b u (pos m) s)) ≤ m
  unfolding trim
  trim-Capped m s some_limit =
      let members = b.zrange (user_sessions u) s in
      let n = length members - m in
      let shorter = length-drop_each n members in
      let left = ap length (zrange-evict (ids (take n members)) s) in
      elim (Bool-cases (ltb_ℤ (pos 0) (pos m) && ltb 0 n)) [
        | inl over ↦ rw (over, trim) (omega (arith, shorter, left))
        | inr under ↦ rw (under, trim) (ground (arith, under))
      ]

  pub kept_index-Capped :
      (n m : ℕ) (s : S)
      → 0 < m
      → length (b.zrange (user_sessions u) (keep_index b u n (trim b u (pos m) s))) ≤ m
  unfolding keep_index
  kept_index-Capped n m s some_limit =
      let t = trim b u (pos m) s in
      let cap = trim-Capped m s some_limit in
      elim (Bool-cases (ltb_ℤ (b.pttl (user_sessions u) t) (pos n))) [
        | inl short ↦
            rw (short, keep_index, laws.zrange-pexpire (user_sessions u) n (user_sessions u) t) cap
        | inr long ↦ rw (long, keep_index) cap
      ]
