-- ===== src/Body/Progress/Chunks.antt =====
-- Bytes in chunks: what a read is to give, from its first chunk and the rest.
use goggles.Body.Progress.{ends_with_newline, chunk_limit, size_left}
use goggles.Base.{
  ℕ, zero, suc, ◌-◌, ◌≤◌, ◌<◌, ◌≡◌, refl, ap, ◌∙◌, inl, inr, Bool, true, false, not, ◌&&◌, ◌||◌,
  Option, none, some, List, [], ◌∷◌, ◌++◌, arith, ltb, if◌then◌else◌, Bool-cases, ◌==◌, length,
  is_empty, take, drop, length-append, nat_eq,
}

-- What readline(n) gives of the bytes that are left: up to a newline, and n bytes at most.
unfoldable pub first_line : ℕ → List ℕ → List ℕ
first_line n [] = []
first_line zero (b ∷ bs) = []
first_line (suc n) (b ∷ bs) = let rest = first_line n bs in b ∷ (if b == 10 then [] else rest)

abbrev pub taken : Bool → ℕ → List ℕ → List ℕ
taken line n bytes = if line then first_line n bytes else take n bytes

minus_zero : (n : ℕ) → n ≡ n - 0
minus_zero n = omega arith

suc_minus : (n m : ℕ) → n - m ≡ suc n - suc m
suc_minus n m = omega arith

-- A newline before the last byte.
unfoldable pub has_inner_newline : List ℕ → Bool
has_inner_newline [] = false
has_inner_newline (b ∷ bs) =
    let later = has_inner_newline bs in (b == 10 && not (is_empty bs)) || later

-- A chunk of the bytes that are left: the first of them, as few of them as may be, but no more than
-- were asked for, none only at their end, and of one line if a line was asked for.
pub record IsChunk (line : Bool) (limit : ℕ) (bytes left chunk : List ℕ) : Type 0 where
  pub in_order : bytes ≡ chunk ++ left
  pub within : length chunk ≤ limit
  pub at_end : 0 < limit → is_empty chunk ≡ true → is_empty bytes ≡ true
  pub one_line : line ≡ true → has_inner_newline chunk ≡ false

take_after :
    (n : ℕ) (chunk left : List ℕ)
    → length chunk ≤ n
    → take n (chunk ++ left) ≡ chunk ++ take (n - length chunk) left
take_after n [] left h = ap (λ m. take m left) (minus_zero n)
take_after zero (b ∷ chunk) left h = absurd (omega (arith, h))
take_after (suc n) (b ∷ chunk) left h =
    ap (λ r. b ∷ r)
      (take_after n chunk left (omega (arith, h))
        ∙ ap (λ m. chunk ++ take m left) (suc_minus n (length chunk)))

first_line_after :
    (n : ℕ) (chunk left : List ℕ)
    → length chunk ≤ n
    → has_inner_newline chunk ≡ false
    → first_line n (chunk ++ left)
      ≡ chunk ++ (if ends_with_newline chunk then [] else first_line (n - length chunk) left)
unfolding first_line ends_with_newline has_inner_newline
first_line_after n [] left h k = ap (λ m. first_line m left) (minus_zero n)
first_line_after zero (b ∷ chunk) left h k = absurd (omega (arith, h))
first_line_after (suc n) (b ∷ []) left h k = elim (Bool-cases (b == 10)) [
  | inl p ↦ rw p refl
  | inr p ↦ rw p (ap (λ m. b ∷ first_line m left) (minus_zero n ∙ suc_minus n 0))
]
first_line_after (suc n) (b ∷ c ∷ chunk) left h k = elim (Bool-cases (b == 10)) [
  | inl p ↦ absurd (ground (arith, k, p))
  | inr p ↦
      let inner : has_inner_newline (c ∷ chunk) ≡ false = ground (arith, k, p) in
      rw p (
        ap (λ r. b ∷ r)
          (first_line_after n (c ∷ chunk) left (omega (arith, h)) inner
            ∙ ap
                (λ m.
                  (c ∷ chunk) ++ (if ends_with_newline (c ∷ chunk) then [] else first_line m left))
                (suc_minus n (length (c ∷ chunk)))))
]

pub drop-chunk : (chunk left : List ℕ) → drop (length chunk) (chunk ++ left) ≡ left
drop-chunk [] left = refl
drop-chunk (b ∷ chunk) left = drop-chunk chunk left

pub drop-append :
    (chunk rest bytes : List ℕ)
    → drop (length (chunk ++ rest)) bytes ≡ drop (length rest) (drop (length chunk) bytes)
drop-append [] rest bytes = refl
drop-append (c ∷ chunk) rest [] = drop_nil (length rest)
  where
    drop_nil : (k : ℕ) → ◌≡◌ {A = List ℕ} [] (drop k [])
    drop_nil zero = refl
    drop_nil (suc k) = refl
drop-append (c ∷ chunk) rest (b ∷ bytes) = drop-append chunk rest bytes

-- What a read of that size is to give.
abbrev pub wanted : Bool → Option ℕ → List ℕ → List ℕ
wanted line none bytes = taken line (length bytes) bytes
wanted line (some size) bytes = taken line size bytes

abbrev pub rest_wanted : Bool → Option ℕ → List ℕ → List ℕ → List ℕ
rest_wanted line size chunk left =
    if line && ends_with_newline chunk then [] else wanted line (size_left size chunk) left

taken_after :
    (line : Bool) (n : ℕ) (chunk left : List ℕ)
    → length chunk ≤ n
    → (line ≡ true → has_inner_newline chunk ≡ false)
    → taken line n (chunk ++ left)
      ≡ chunk
        ++ (if line && ends_with_newline chunk then [] else taken line (n - length chunk) left)
taken_after false n chunk left h k = take_after n chunk left h
taken_after true n chunk left h k = first_line_after n chunk left h (k refl)

wanted_after :
    (line : Bool) (size : Option ℕ) (chunk left : List ℕ)
    → length chunk ≤ chunk_limit size
    → (line ≡ true → has_inner_newline chunk ≡ false)
    → wanted line size (chunk ++ left) ≡ chunk ++ rest_wanted line size chunk left
wanted_after line none chunk left h k =
    taken_after line (length (chunk ++ left)) chunk left (omega (arith, length-append chunk left)) k
    ∙ ap (λ m. chunk ++ (if line && ends_with_newline chunk then [] else taken line m left))
        (omega (arith, length-append chunk left))
wanted_after line (some size) chunk left h k =
    let short : ltb size (length chunk) ≡ false = ground (arith, h) in
    taken_after line size chunk left (ground (arith, h)) k ∙ rw short refl

pub wanted_chunked :
    (line : Bool) (size : Option ℕ) (bytes left chunk : List ℕ)
    → IsChunk line (chunk_limit size) bytes left chunk
    → wanted line size bytes ≡ chunk ++ rest_wanted line size chunk left
wanted_chunked line size bytes left chunk c =
    ap (wanted line size) c.in_order ∙ wanted_after line size chunk left c.within c.one_line
