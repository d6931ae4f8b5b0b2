-- ===== src/Auth/Sessions/Purge.antt =====
-- The background task of DeleteAllUserSessions: that its loop ends, and that it deletes every session
-- of the detached index that outlives the cut.
use aegis_core.Base.{
  ℕ, zero, suc, ◌<◌, ◌≤◌, ◌≡◌, refl, sym, ap, ◌∙◌, Bool, true, false, Option, none, some, List, [],
  ◌∷◌, ◌==◌, if◌then◌else◌, length, take, ◌⊎◌, inl, inr, arith, Bool-cases, ==_iff,
}
use aegis_core.Base.Text.{Uuid}
use aegis_core.Auth.Domain.{SessionId}
use aegis_core.Auth.Keyspace.{
  Backend, Laws, Member, session_key, purge_sessions, without, has_id, scored, scored_any, distinct,
  IndexKey,
}
use aegis_core.Auth.Sessions.{ids, run_script, under_link, and_then}
use aegis_core.Auth.Sessions.Store.{
  PurgeTask, purge_round, purge_batch, unlink_sessions, unlink_alive, alive_ids, batch_size,
}
use aegis_core.Auth.Sessions.Rotation.{under_link-some}
use aegis_core.Auth.Sessions.Index.{scored-without}

length-without_ids : (is : List SessionId) (ms : List Member) → length (without is ms) ≤ length ms
length-without_ids is [] = omega arith
length-without_ids is (m ∷ ms) = let ih = length-without_ids is ms in ground (arith, ih)

-- the first of the removed is gone
length-without_first :
    (m : Member) (is : List SessionId) (ms : List Member)
    → length (without (m.id ∷ is) (m ∷ ms)) < length (m ∷ ms)
length-without_first m is ms = let less = length-without_ids (m.id ∷ is) ms in ground (arith, less)

scored-any :
    (i : SessionId) (sc : ℕ) (ms : List Member) → scored i sc ms ≡ true → scored_any i ms ≡ true
scored-any i sc [] h = h
scored-any i sc (m ∷ ms) h = elim (Bool-cases (scored i sc ms)) [
  | inl within ↦ (let ih = scored-any i sc ms within in ground (arith, ih, h))
  | inr out ↦ ground (arith, out, h)
]

-- an entry that outlives the cut is deleted by the batch that lists it
alive-batch :
    (n i sc cut : ℕ) (ms : List Member)
    → cut < sc
    → distinct ms ≡ true
    → scored i sc ms ≡ true
    → has_id i (ids (take n ms)) ≡ true
    → has_id i (alive_ids cut (take n ms)) ≡ true
alive-batch zero i sc cut ms later unique h is = is
alive-batch (suc n) i sc cut [] later unique h is = is
alive-batch (suc n) i sc cut (m ∷ ms) later unique h is = elim (Bool-cases (m.id == i)) [
  | inl same ↦
      (let path = (==_iff m.id i).0 same in
        elim (Bool-cases (scored i sc ms)) [
          | inl again ↦
              (let twice = scored-any i sc ms again in
                let alone = ap (λ k. scored_any k ms) path in ground (arith, twice, alone, unique))
          | inr single ↦ ground (arith, single, h, same, later)
        ])
  | inr other ↦
      (let ih =
          alive-batch n i sc cut ms later (ground (arith, unique)) (ground (arith, h, other))
            (ground (arith, is, other)) in
        ground (arith, ih, other))
]

and_then-some :
    {S A B : Type 0} (o : Option A) (s : S) (f : A → Option B × S) (c : B)
    → (and_then o s f).0 ≡ some c
    → (a : A) × (o ≡ some a) × (and_then o s f ≡ f a)
and_then-some none s f c e = ground (arith, e)
and_then-some (some a) s f c e = (a, refl, refl)

module _ {S V : Type 0} (b : Backend S V) (laws : Laws b) where
  unlink-get :
      (u : Uuid) (is : List SessionId) (j : SessionId) (s : S)
      → b.get (session_key u j) (unlink_sessions b u is s)
        ≡ (if has_id j is then none else b.get (session_key u j) s)
  unfolding unlink_sessions
  unlink-get u [] j s = refl
  unlink-get u (i ∷ is) j s =
      let ih = unlink-get u is j (b.del (session_key u i) s) in
      let deleted = laws.get-del (session_key u i) (session_key u j) s in
      ground (arith, ih, deleted)

  unlink-zrange :
      (u : Uuid) (is : List SessionId) (k : IndexKey) (s : S)
      → b.zrange k (unlink_sessions b u is s) ≡ b.zrange k s
  unfolding unlink_sessions
  unlink-zrange u [] k s = refl
  unlink-zrange u (i ∷ is) k s =
      unlink-zrange u is k (b.del (session_key u i) s) ∙ laws.zrange-del (session_key u i) k s

  unlink_alive-done :
      (u : Uuid) (is : List SessionId) (s : S) (v : Bool)
      → (unlink_alive b u is s).0 ≡ some v
      → ((j : SessionId)
          → b.get (session_key u j) (unlink_alive b u is s).1
            ≡ (if has_id j is then none else b.get (session_key u j) s))
        × ((k : IndexKey) → b.zrange k (unlink_alive b u is s).1 ≡ b.zrange k s)
  unfolding unlink_alive run_script
  unlink_alive-done u [] s v e = (λ j. refl, λ k. refl)
  unlink_alive-done u (i ∷ is) s v e =
      let ran : Bool × S = (true, unlink_sessions b u (i ∷ is) (b.spent s)) in
      let (replied, state) = under_link-some (b.link s) ran (b.spent s) v e in
      (
        λ j.
            ap (b.get (session_key u j)) state
            ∙ unlink-get u (i ∷ is) j (b.spent s)
            ∙ ap (λ o. if has_id j (i ∷ is) then none else o) (laws.get-spent (session_key u j) s),
        λ k. ap (b.zrange k) state ∙ unlink-zrange u (i ∷ is) k (b.spent s) ∙ laws.zrange-spent k s,
      )

  -- what a round that found sessions has done
  purge_batch-done :
      (t : PurgeTask) (batch : List Member) (s : S)
      → (purge_batch b t batch s).0 ≡ some false
      → (0 < length batch)
        × ((j : SessionId)
            → b.get (session_key t.owner j) (purge_batch b t batch s).1 ≡ (
                if has_id j (alive_ids (b.score t.cut_time) batch)
                then none
                else b.get (session_key t.owner j) s))
        × (b.zrange (purge_sessions t.owner t.purge_id) (purge_batch b t batch s).1
            ≡ without (ids batch) (b.zrange (purge_sessions t.owner t.purge_id) s))
  unfolding purge_batch run_script
  purge_batch-done t [] s e = ground (arith, e)
  purge_batch-done t (m ∷ ms) s e =
      let index = purge_sessions t.owner t.purge_id in
      let un = unlink_alive b t.owner (alive_ids (b.score t.cut_time) (m ∷ ms)) s in
      let (v, got, next) = and_then-some un.0 un.1 _ false e in
      let (gets, ranges) =
        unlink_alive-done t.owner (alive_ids (b.score t.cut_time) (m ∷ ms)) s v got in
      let removed : Bool × S = (false, b.zrem index (ids (m ∷ ms)) (b.spent un.1)) in
      let (replied, state) =
        under_link-some (b.link un.1) removed (b.spent un.1) false (ap (λ r. r.0) (sym next) ∙ e) in
      let after = ap (λ r. r.1) next ∙ state in
      (
        omega arith,
        λ j.
            ap (b.get (session_key t.owner j)) after
            ∙ laws.get-zrem index (ids (m ∷ ms)) (session_key t.owner j) (b.spent un.1)
            ∙ laws.get-spent (session_key t.owner j) un.1
            ∙ gets j,
        ap (b.zrange index) after
            ∙ laws.zrange-zrem index (ids (m ∷ ms)) (b.spent un.1)
            ∙ ap (without (ids (m ∷ ms))) (laws.zrange-spent index un.1 ∙ ranges index),
      )

  -- a round reads the first of what is left
  pub purge_round-read :
      (t : PurgeTask) (s : S) (last : Bool)
      → (purge_round b t s).0 ≡ some last
      → purge_round b t s
        ≡ purge_batch b t
            (take batch_size (b.zrange (purge_sessions t.owner t.purge_id) s))
            (b.spent s)
  unfolding purge_round run_script
  purge_round-read t s last e =
      let index = purge_sessions t.owner t.purge_id in
      let batch = take batch_size (b.zrange index (b.spent s)) in
      let found : List Member × S = (batch, b.spent s) in
      let read = under_link (b.link s) found (b.spent s) in
      let (v, got, next) = and_then-some read.0 read.1 (λ c. purge_batch b t c read.1) last e in
      let (same, state) = under_link-some (b.link s) found (b.spent s) v got in
      next
      ∙ ap (purge_batch b t v) state
      ∙ ap (λ c. purge_batch b t c (b.spent s))
          (sym same ∙ ap (take batch_size) (laws.zrange-spent index s))

  pub purge_batch-last :
      (t : PurgeTask) (batch : List Member) (s : S)
      → (purge_batch b t batch s).0 ≡ some true
      → (batch ≡ []) × ((purge_batch b t batch s).1 ≡ s)
  unfolding purge_batch run_script
  purge_batch-last t [] s e = (refl, refl)
  purge_batch-last t (m ∷ ms) s e =
      let index = purge_sessions t.owner t.purge_id in
      let un = unlink_alive b t.owner (alive_ids (b.score t.cut_time) (m ∷ ms)) s in
      let (v, got, next) = and_then-some un.0 un.1 _ true e in
      let removed : Bool × S = (false, b.zrem index (ids (m ∷ ms)) (b.spent un.1)) in
      let (replied, state) =
        under_link-some (b.link un.1) removed (b.spent un.1) true (ap (λ r. r.0) (sym next) ∙ e) in
      ground (arith, replied)

  pub take-none : (ms : List Member) → take batch_size ms ≡ [] → ms ≡ []
  take-none [] e = refl
  take-none (m ∷ ms) e = ground (arith, e)

  length-batch :
      (ms : List Member)
      → 0 < length (take batch_size ms)
      → length (without (ids (take batch_size ms)) ms) < length ms
  length-batch [] h = h
  length-batch (m ∷ ms) h = length-without_first m (ids (take 499 ms)) ms

  pub round-more :
      (t : PurgeTask) (s : S)
      → (purge_round b t s).0 ≡ some false
      → (length (b.zrange (purge_sessions t.owner t.purge_id) (purge_round b t s).1)
          < length (b.zrange (purge_sessions t.owner t.purge_id) s))
        × ((j : SessionId)
            → (b.get (session_key t.owner j) (purge_round b t s).1 ≡ none)
              ⊎ (b.get (session_key t.owner j) (purge_round b t s).1
                  ≡ b.get (session_key t.owner j) s))
        × ((j : SessionId) (sc : ℕ)
            → b.score t.cut_time < sc
            → scored j sc (b.zrange (purge_sessions t.owner t.purge_id) s) ≡ true
            → (b.get (session_key t.owner j) (purge_round b t s).1 ≡ none)
              ⊎ (scored j sc (b.zrange (purge_sessions t.owner t.purge_id) (purge_round b t s).1)
                  ≡ true))
  round-more t s e =
      let index = purge_sessions t.owner t.purge_id in
      let ms = b.zrange index s in
      let batch = take batch_size ms in
      let alive = alive_ids (b.score t.cut_time) batch in
      let r = b.spent s in
      let read = purge_round-read t s false e in
      let (some_left, gets, ranges) = purge_batch-done t batch r (ap (λ x. x.0) (sym read) ∙ e) in
      let got = λ (j : SessionId).
        ap (λ x. b.get (session_key t.owner j) x.1) read
        ∙ gets j
        ∙ ap (λ o. if has_id j alive then none else o) (laws.get-spent (session_key t.owner j) s) in
      let rest =
        ap (λ x. b.zrange index x.1) read
        ∙ ranges
        ∙ ap (without (ids batch)) (laws.zrange-spent index s) in
      (
        rw rest (length-batch ms some_left),
        (λ j. elim (Bool-cases (has_id j alive)) [
          | inl dead ↦ inl (ground (arith, got j, dead))
          | inr other ↦ inr (ground (arith, got j, other))
        ]),
        λ j sc later entry. elim (Bool-cases (has_id j (ids batch))) [
          | inl in_batch ↦
              (let dead =
                  alive-batch batch_size j sc (b.score t.cut_time) ms later
                    (laws.zrange-distinct index s) entry in_batch in
                inl (ground (arith, got j, dead)))
          | inr other ↦
              inr (ap (scored j sc) rest ∙ scored-without j sc (ids batch) ms other ∙ entry)
        ],
      )
