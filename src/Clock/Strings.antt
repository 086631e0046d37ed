-- ===== src/Clock/Strings.antt =====
-- `timestampToShortString`: hours, minutes, seconds and microseconds in a buffer of 32 characters.
use message_transport.Common.{
  ℕ, zero, suc, ◌+◌, ◌-◌, ◌*◌, ◌/◌, ◌%◌, ◌≡◌, refl, ap, ◌∙◌, Option, none, some, List, [], ◌∷◌,
  ◌++◌, length, length-append, take-length-append, replicate, take, ltb, if◌then◌else◌, arith,
}
use message_transport.Clock.Time.{seconds_of, micros_of}

-- `struct tm`, as far as it is read.
pub record Tm : Type 0 where
  pub tm_hour : ℕ
  pub tm_min : ℕ
  pub tm_sec : ℕ

-- The decimal digits of an int, which has at most ten.
unfoldable pub to_digits : ℕ → ℕ → List ℕ
to_digits zero n = []
to_digits (suc k) n =
    let rest = to_digits k (n / 10) in
    if ltb n 10 then (48 + n) ∷ [] else rest ++ ((48 + n % 10) ∷ [])

-- `%0wd` of `sprintf`
unfoldable pub padded : ℕ → ℕ → List ℕ
padded w n = let ds = to_digits 10 n in replicate (w - length ds) 48 ++ ds

-- `local` is `localtime_r`.
unfoldable pub timestamp_to_short_string : (ℕ → Tm) → ℕ → List ℕ
timestamp_to_short_string local t =
    let tm = local (seconds_of t) in
    padded 2 tm.tm_hour
    ++ (58 ∷ (padded 2 tm.tm_min ++ (58 ∷ (padded 2 tm.tm_sec ++ (46 ∷ padded 6 (micros_of t))))))

-- `result.replace(result.length()-1, 4, " UTC")`; an empty string throws.
unfoldable pub replace_last : List ℕ → Option (List ℕ)
replace_last [] = none
replace_last (c ∷ cs) = some (take (length cs) (c ∷ cs) ++ (32 ∷ 85 ∷ 84 ∷ 67 ∷ []))

-- `timestampToString`; `text` is `asctime_r` of `gmtime_r`.
unfoldable pub timestamp_to_string : (ℕ → List ℕ) → ℕ → Option (List ℕ)
timestamp_to_string text t = replace_last (text (seconds_of t))

-- The number that digits spell, behind `n`.
unfoldable pub of_digits : ℕ → List ℕ → ℕ
of_digits n [] = n
of_digits n (d ∷ ds) = of_digits (n * 10 + (d - 48)) ds

-- Where the text of the library is a line with its end, the line stays and " UTC" follows.
timestamp_to_string-replace_last :
    (text : ℕ → List ℕ) (t : ℕ) (line : List ℕ)
    → text (seconds_of t) ≡ line ++ (10 ∷ [])
    → timestamp_to_string text t ≡ some (line ++ (32 ∷ 85 ∷ 84 ∷ 67 ∷ []))
unfolding timestamp_to_string replace_last
timestamp_to_string-replace_last text t line e = ap replace_last e ∙ last line
  where
    last : (xs : List ℕ) → replace_last (xs ++ (10 ∷ [])) ≡ some (xs ++ (32 ∷ 85 ∷ 84 ∷ 67 ∷ []))
    last [] = refl
    last (c ∷ cs) =
        let same : length (cs ++ (10 ∷ [])) ≡ length (c ∷ cs) =
          omega (arith, length-append {A = ℕ} cs (10 ∷ [])) in
        ap (λ (xs : List ℕ). some (xs ++ (32 ∷ 85 ∷ 84 ∷ 67 ∷ [])))
          (ap (λ (k : ℕ). take k (c ∷ (cs ++ (10 ∷ [])))) same
            ∙ take-length-append {A = ℕ} (c ∷ cs) (10 ∷ []))
