-- ===== src/Rbac/Message/Cache.antt =====
-- The comparison of decimal texts in cachePolicyRevisionScript orders revisions as numbers.
use native.Mathlib.Nat.{pow-suc, suc-mul}
use aegis_core.Base.{
  ℕ, zero, suc, ◌+◌, ◌-◌, ◌*◌, ◌^◌, ◌≤◌, ◌<◌, ◌≡◌, ◌⊎◌, ap, ==_iff, inl, inr, true, false, some,
  List, [], ◌∷◌, arith, length, ◌==◌, ltb, Bool-cases,
}
use aegis_core.Rbac.Message.{bytes_less, cache_policy_revision}

-- the number that a text of digits stands for
abbrev pub value : List ℕ → ℕ
value [] = 0
value (c ∷ cs) = (c - 48) * 10 ^ length cs + value cs

abbrev IsDigits : List ℕ → Type 0
IsDigits [] = Unit
IsDigits (c ∷ cs) = (48 ≤ c) × (c < 58) × IsDigits cs

-- how Go prints a positive revision
abbrev IsDecimal : List ℕ → Type 0
IsDecimal [] = ⊥
IsDecimal (c ∷ cs) = (48 < c) × (c < 58) × IsDigits cs

pow_step : (n : ℕ) → 10 ^ suc n ≡ 10 * 10 ^ n
pow_step n = rw (pow-suc 10 n) (omega arith)

-- a smaller leading digit decides
lead : (a b p v : ℕ) → a < b → v < p → a * p + v < b * p
lead a zero p v h k = absurd (omega (arith, h))
lead zero (suc b) p v h k = omega (arith, suc-mul b p)
lead (suc a) (suc b) p v h k = omega (arith, suc-mul a p, suc-mul b p, lead a b p v (omega arith) k)

value-bound : (cs : List ℕ) → IsDigits cs → value cs < 10 ^ length cs
value-bound [] h = omega arith
value-bound (c ∷ cs) h =
    let below =
      lead (c - 48) 10 (10 ^ length cs) (value cs) (omega (arith, h)) (value-bound cs h.2) in
    let step = pow_step (length cs) in omega (arith, below, step)

digit : (c : ℕ) → 48 < c → c - 48 ≡ suc (c - 48 - 1)
digit c h = omega (arith, h)

-- a text with no leading zero is at least the power of its length
value-lower : (c : ℕ) (cs : List ℕ) → IsDecimal (c ∷ cs) → 10 ^ length cs ≤ value (c ∷ cs)
value-lower c cs h =
    let d = c - 48 in
    let split = suc-mul (d - 1) (10 ^ length cs) in
    let one = digit c h.0 in rw one (omega (arith, split))

the_tail : (n m : ℕ) → suc n ≡ suc m → n ≡ m
the_tail n m h = omega (arith, h)

add_zero : (n : ℕ) → n + 0 ≡ n
add_zero n = omega arith

add_suc : (n k : ℕ) → n + suc k ≡ suc (n + k)
add_suc n k = omega arith

meet : (n m : ℕ) → n < suc m → n + (m - n) ≡ m
meet n m h = omega (arith, h)

-- on texts of one length the order of the bytes is the order of the numbers
bytes_less-value :
    (xs ys : List ℕ)
    → IsDigits xs
    → IsDigits ys
    → length xs ≡ length ys
    → (bytes_less xs ys ≡ true → value xs < value ys)
      × (bytes_less xs ys ≡ false → value ys ≤ value xs)
unfolding bytes_less
bytes_less-value [] [] h k same = ground arith
bytes_less-value [] (y ∷ ys) h k same = absurd (omega (arith, same))
bytes_less-value (x ∷ xs) [] h k same = absurd (omega (arith, same))
bytes_less-value (x ∷ xs) (y ∷ ys) h k same =
    let len = the_tail (length xs) (length ys) same in
    let power = ap (λ n. (y - 48) * 10 ^ n) len in
    let rest = bytes_less-value xs ys h.2 k.2 len in
    let vx = value-bound xs h.2 in
    let vy = value-bound ys k.2 in
    let p = ap (λ n. 10 ^ n) len in
    elim (Bool-cases (ltb x y)) [
      | inl less ↦
          ground (arith, less, power, lead (x - 48) (y - 48) (10 ^ length xs) (value xs), vx, h, k)
      | inr not_less ↦ elim (Bool-cases (x == y)) [
        | inl equal ↦
            ground (
              arith,
              equal,
              rest,
              power,
              ap (λ d. (d - 48) * 10 ^ length xs) ((==_iff x y).0 equal),
            )
        | inr other ↦ ground (
          arith,
          not_less,
          other,
          power,
          p,
          lead (y - 48) (x - 48) (10 ^ length xs) (value ys),
          vy,
          h,
          k,
        )
      ]
    ]

IsDecimal-IsDigits : (xs : List ℕ) → IsDecimal xs → IsDigits xs
IsDecimal-IsDigits [] h = elim h [ ]
IsDecimal-IsDigits (x ∷ xs) h = (omega (arith, h), h.1, h.2)

pow_mono : (n k : ℕ) → 10 ^ n ≤ 10 ^ (n + k)
pow_mono n zero = let same = ap (λ m. 10 ^ m) (add_zero n) in omega (arith, same)
pow_mono n (suc k) =
    let step = pow_step (n + k) in
    let more = ap (λ m. 10 ^ m) (add_suc n k) in omega (arith, pow_mono n k, step, more)

longer-value :
    (xs ys : List ℕ) → IsDecimal xs → IsDecimal ys → length xs < length ys → value xs < value ys
longer-value xs [] h k longer = elim k [ ]
longer-value xs (y ∷ ys) h k longer =
    let top = value-bound xs (IsDecimal-IsDigits xs h) in
    let bottom = value-lower y ys k in
    let mono = pow_mono (length xs) (length ys - length xs) in
    let meets = ap (λ m. 10 ^ m) (meet (length xs) (length ys) longer) in
    omega (arith, top, bottom, mono, meets)

-- The script never lets the cached revision go back: between two revisions as Go prints them it keeps
-- the one whose number is larger.
pub cache_policy_revision-max :
    (current supplied kept : List ℕ)
    → IsDecimal current
    → IsDecimal supplied
    → cache_policy_revision (some current) supplied ≡ some kept
    → ((kept ≡ current) ⊎ (kept ≡ supplied))
      × (value current ≤ value kept)
      × (value supplied ≤ value kept)
unfolding cache_policy_revision
cache_policy_revision-max current supplied kept h k is =
    let here = IsDecimal-IsDigits current h in
    let there = IsDecimal-IsDigits supplied k in
    let longer = longer-value current supplied h k in
    let shorter = longer-value supplied current k h in
    let same = bytes_less-value current supplied here there in
    elim (Bool-cases (ltb (length current) (length supplied))) [
      | inl less ↦ ground (arith, less, longer, is)
      | inr not_less ↦ elim (Bool-cases (length current == length supplied)) [
        | inl equal ↦ ground (arith, not_less, equal, same, is)
        | inr other ↦ ground (arith, not_less, other, shorter, is)
      ]
    ]
