-- ===== src/Auth/Sessions/Index.antt =====
-- The index of a user's refresh sessions: that every session which can still be used is listed in it
-- with the score of its expiry, so that the revocation of all sessions reaches it.
use aegis_core.Base.{
  ℕ, ◌-◌, ◌<◌, ◌≡◌, refl, ap, ◌∙◌, true, false, ◌&&◌, none, some, List, [], ◌∷◌, ◌==◌, ltb, length,
  take, ◌⊎◌, inl, inr, arith, Bool-cases, ==_iff,
}
use aegis_core.Base.Int.{ℤ, pos, pos_part, ltb_ℤ}
use aegis_core.Base.Text.{Uuid}
use aegis_core.Auth.Domain.{SessionId}
use aegis_core.Auth.Keyspace.{
  Backend, Laws, Member, session_key, user_sessions, scored, without, above, has_id,
}
use aegis_core.Auth.Sessions.{ids, ScriptArgs, evict, trim, keep_index}

scored-above :
    (i : SessionId) (sc t : ℕ) (ms : List Member)
    → t < sc
    → scored i sc (above t ms) ≡ scored i sc ms
scored-above i sc t [] h = refl
scored-above i sc t (m ∷ ms) h = let ih = scored-above i sc t ms h in ground arith

pub scored-without :
    (i : SessionId) (sc : ℕ) (is : List SessionId) (ms : List Member)
    → has_id i is ≡ false
    → scored i sc (without is ms) ≡ scored i sc ms
scored-without i sc is [] h = refl
scored-without i sc is (m ∷ ms) h =
    let ih = scored-without i sc is ms h in
    elim (Bool-cases (m.id == i)) [
      | inl is_i ↦ ground (arith, ih, h, is_i, ap (λ k. has_id k is) ((==_iff m.id i).0 is_i))
      | inr other ↦ ground (arith, ih, other)
    ]

module _ {S V : Type 0} (b : Backend S V) (laws : Laws b) (u : Uuid) where
  -- from s to t the session j of u is gone, or unchanged together with its entry in the index
  abbrev pub Kept : SessionId → ℕ → S → S → Type 0
  Kept j sc s t =
      (b.get (session_key u j) t ≡ none)
      ⊎ ((b.get (session_key u j) t ≡ b.get (session_key u j) s)
          × (scored j sc (b.zrange (user_sessions u) t)
              ≡ scored j sc (b.zrange (user_sessions u) s)))

  pub Kept-trans :
      (j : SessionId) (sc : ℕ) (r s t : S) → Kept j sc r s → Kept j sc s t → Kept j sc r t
  Kept-trans j sc r s t (inl gone) (inl gone2) = inl gone2
  Kept-trans j sc r s t (inl gone) (inr (same, listed)) = inl (same ∙ gone)
  Kept-trans j sc r s t (inr kept) (inl gone) = inl gone
  Kept-trans j sc r s t (inr (g, l)) (inr (g2, l2)) = inr (g2 ∙ g, l2 ∙ l)

  -- a session is deleted and taken from the index
  drop-Kept :
      (i j : SessionId) (sc : ℕ) (s : S)
      → Kept j sc s (b.zrem (user_sessions u) (i ∷ []) (b.del (session_key u i) s))
  drop-Kept i j sc s =
      let got =
        laws.get-zrem (user_sessions u) (i ∷ []) (session_key u j) (b.del (session_key u i) s) in
      let deleted = laws.get-del (session_key u i) (session_key u j) s in
      let removed = laws.zrange-zrem (user_sessions u) (i ∷ []) (b.del (session_key u i) s) in
      let same = laws.zrange-del (session_key u i) (user_sessions u) s in
      elim (Bool-cases (i == j)) [
        | inl is ↦ inl (ground (arith, got, deleted, is))
        | inr isnt ↦ inr (
          ground (arith, got, deleted, isnt),
          ap (scored j sc) (removed ∙ ap (without (i ∷ [])) same)
              ∙ scored-without j sc (i ∷ []) (b.zrange (user_sessions u) s) (ground (arith, isnt)),
        )
      ]

  -- the same in the other order
  pub consume-Kept :
      (i j : SessionId) (sc : ℕ) (s : S)
      → Kept j sc s (b.del (session_key u i) (b.zrem (user_sessions u) (i ∷ []) s))
  consume-Kept i j sc s =
      let t = b.zrem (user_sessions u) (i ∷ []) s in
      let got = laws.get-zrem (user_sessions u) (i ∷ []) (session_key u j) s in
      let deleted = laws.get-del (session_key u i) (session_key u j) t in
      let removed = laws.zrange-zrem (user_sessions u) (i ∷ []) s in
      let same = laws.zrange-del (session_key u i) (user_sessions u) t in
      elim (Bool-cases (i == j)) [
        | inl is ↦ inl (ground (arith, got, deleted, is))
        | inr isnt ↦ inr (
          ground (arith, got, deleted, isnt),
          ap (scored j sc) (same ∙ removed)
              ∙ scored-without j sc (i ∷ []) (b.zrange (user_sessions u) s) (ground (arith, isnt)),
        )
      ]

  -- the transaction of DeleteSession, for entries above its cut
  pub pruned-Kept :
      (i j : SessionId) (cut sc : ℕ) (s : S)
      → cut < sc
      → Kept j sc s (
          b.zrem
            (user_sessions u)
            (i ∷ [])
            (b.zremrangebyscore (user_sessions u) cut (b.del (session_key u i) s)))
  pruned-Kept i j cut sc s after =
      let k = user_sessions u in
      let d = b.del (session_key u i) s in
      let p = b.zremrangebyscore k cut d in
      let got =
        laws.get-zrem k (i ∷ []) (session_key u j) p
        ∙ laws.get-zremrange k cut (session_key u j) d in
      let deleted = laws.get-del (session_key u i) (session_key u j) s in
      elim (Bool-cases (i == j)) [
        | inl is ↦ inl (ground (arith, got, deleted, is))
        | inr isnt ↦ inr (
          ground (arith, got, deleted, isnt),
          ap (scored j sc) (laws.zrange-zrem k (i ∷ []) p)
              ∙ scored-without j sc (i ∷ []) (b.zrange k p) (ground (arith, isnt))
              ∙ ap (scored j sc) (laws.zrange-zremrange k cut d)
              ∙ scored-above j sc cut (b.zrange k d) after
              ∙ ap (scored j sc) (laws.zrange-del (session_key u i) k s),
        )
      ]

  evict-Kept : (is : List SessionId) (j : SessionId) (sc : ℕ) (s : S) → Kept j sc s (evict b u is s)
  unfolding evict
  evict-Kept [] j sc s = inr (refl, refl)
  evict-Kept (i ∷ is) j sc s =
      let t = b.zrem (user_sessions u) (i ∷ []) (b.del (session_key u i) s) in
      Kept-trans j sc s t (evict b u is t) (drop-Kept i j sc s) (evict-Kept is j sc t)

  pub trim-Kept : (max : ℤ) (j : SessionId) (sc : ℕ) (s : S) → Kept j sc s (trim b u max s)
  unfolding trim
  trim-Kept max j sc s =
      let members = b.zrange (user_sessions u) s in
      let overflow = length members - pos_part max in
      elim (Bool-cases (ltb_ℤ (pos 0) max && ltb 0 overflow)) [
        | inl over ↦ rw over (evict-Kept (ids (take overflow members)) j sc s)
        | inr under ↦ rw under (inr (refl, refl))
      ]

  pub keep_index-Kept : (n : ℕ) (j : SessionId) (sc : ℕ) (s : S) → Kept j sc s (keep_index b u n s)
  unfolding keep_index
  keep_index-Kept n j sc s = elim (Bool-cases (ltb_ℤ (b.pttl (user_sessions u) s) (pos n))) [
    | inl short ↦ rw short (
        inr (
          laws.get-pexpire (user_sessions u) n (session_key u j) s,
          ap (scored j sc) (laws.zrange-pexpire (user_sessions u) n (user_sessions u) s),
        ))
    | inr long ↦ rw long (inr (refl, refl))
  ]

  -- the writes that both scripts begin with
  abbrev pub listed : ScriptArgs V → S → S
  listed a s =
      b.zadd (user_sessions u) (record { id = a.new_id; score = a.expiry_score })
        (b.zremrangebyscore (user_sessions u) a.now_score
          (b.set_px (session_key u a.new_id) a.payload a.ttl_ms s))

  pub listed-other :
      (a : ScriptArgs V) (j : SessionId) (sc : ℕ) (s : S)
      → (a.ttl_ms == 0) ≡ false
      → (a.new_id == j) ≡ false
      → a.now_score < sc
      → Kept j sc s (listed a s)
  listed-other a j sc s ttl other later =
      let s1 = b.set_px (session_key u a.new_id) a.payload a.ttl_ms s in
      let s2 = b.zremrangebyscore (user_sessions u) a.now_score s1 in
      let m : Member = record { id = a.new_id; score = a.expiry_score } in
      inr (
        laws.get-zadd (user_sessions u) m (session_key u j) s2
            ∙ laws.get-zremrange (user_sessions u) a.now_score (session_key u j) s1
            ∙ ground (
              arith,
              other,
              laws.get-set (session_key u a.new_id) (session_key u j) a.payload a.ttl_ms s ttl,
            ),
        laws.zrange-zadd_other (user_sessions u) m j sc s2 other
            ∙ ap (scored j sc) (laws.zrange-zremrange (user_sessions u) a.now_score s1)
            ∙ scored-above j sc a.now_score (b.zrange (user_sessions u) s1) later
            ∙ ap (scored j sc)
                (laws.zrange-set (session_key u a.new_id) a.payload a.ttl_ms (user_sessions u) s),
      )

  pub listed-new :
      (a : ScriptArgs V) (s : S)
      → (a.ttl_ms == 0) ≡ false
      → (b.get (session_key u a.new_id) (listed a s) ≡ some a.payload)
        × (scored a.new_id a.expiry_score (b.zrange (user_sessions u) (listed a s)) ≡ true)
  listed-new a s ttl =
      let s1 = b.set_px (session_key u a.new_id) a.payload a.ttl_ms s in
      let s2 = b.zremrangebyscore (user_sessions u) a.now_score s1 in
      let m : Member = record { id = a.new_id; score = a.expiry_score } in
      (
        laws.get-zadd (user_sessions u) m (session_key u a.new_id) s2
            ∙ laws.get-zremrange (user_sessions u) a.now_score (session_key u a.new_id) s1
            ∙ ground (
              arith,
              laws.get-set (session_key u a.new_id) (session_key u a.new_id) a.payload a.ttl_ms s
                  ttl,
            ),
        laws.zrange-zadd (user_sessions u) m s2,
      )
