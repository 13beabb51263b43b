-- ===== src/Simulate/Window.antt =====
-- The sliding window against the history that it stands for.
use spmp.Prelude.{
  ℕ, zero, suc, ◌+◌, ◌-◌, ◌^◌, ◌≤◌, ◌<◌, ◌≡◌, ◌∙◌, sym, ap, refl, arith, Bool, true, false,
  if◌then◌else◌, ◌==◌, leb, ==_iff, Bool-cases, inl, inr, List, [], ◌∷◌, ◌++◌, length, drop,
  length-append, length-drop,
}
use spmp.Results.{ok, Profile, debug, release, ◌>>=◌}
use spmp.Simulate.{Audit, sub_usize, pop_oldest, push_outcome, slide_window}

-- The last `n` outcomes, and how many of them are wins.
abbrev pub last : ℕ → List Bool → List Bool
last n history = drop (length history - n) history

abbrev pub bit : Bool → ℕ
bit true = 1
bit false = 0

abbrev pub wins : List Bool → ℕ
wins [] = 0
wins (w ∷ ws) = bit w + wins ws

wins-append : (xs ys : List Bool) → wins (xs ++ ys) ≡ wins xs + wins ys
wins-append [] ys = omega arith
wins-append (x ∷ xs) ys = omega (arith, wins-append xs ys)

drop-append_of_le :
    (n : ℕ) (xs ys : List Bool) → n ≤ length xs → drop n (xs ++ ys) ≡ drop n xs ++ ys
drop-append_of_le zero xs ys h = refl
drop-append_of_le (suc n) [] ys h = absurd (omega arith)
drop-append_of_le (suc n) (x ∷ xs) ys h = drop-append_of_le n xs ys (omega arith)

drop-suc : (n : ℕ) (xs : List Bool) → n < length xs → (x : Bool) × (drop n xs ≡ x ∷ drop (suc n) xs)
drop-suc n [] h = absurd (omega arith)
drop-suc zero (x ∷ xs) h = (x, refl)
drop-suc (suc n) (x ∷ xs) h = drop-suc n xs (omega arith)

sub_usize-suc : (profile : Profile) (n : ℕ) → n + 1 < 2 ^ 64 → sub_usize profile (1 + n) 1 ≡ ok n
sub_usize-suc debug n h = ground arith
sub_usize-suc release n h = ap ok (omega arith)

-- An audit whose window is the last outcomes of a history.
abbrev pub Shows : List Bool → Audit → Type 0
Shows history a = (a.sliding_window ≡ last 50 history) × (a.window_wins ≡ wins (last 50 history))

last-short : (h : List Bool) → length h ≤ 50 → last 50 h ≡ h
last-short h short = let none : length h - 50 ≡ 0 = omega arith in rw none

wins-le-length : (ws : List Bool) → wins ws ≤ length ws
wins-le-length [] = omega arith
wins-le-length (true ∷ ws) = omega (arith, wins-le-length ws)
wins-le-length (false ∷ ws) = omega (arith, wins-le-length ws)

abbrev pub with_window : List Bool → Audit → Audit
with_window window a = record a { sliding_window = window; window_wins = wins window }

pop_oldest-with_window :
    (profile : Profile) (x : Bool) (rest : List Bool) (a : Audit)
    → length rest < 2 ^ 63
    → a.sliding_window ≡ x ∷ rest
    → a.window_wins ≡ wins (x ∷ rest)
    → pop_oldest profile (x ∷ rest) a ≡ ok (with_window rest a)
pop_oldest-with_window profile true rest a small ew en =
    rw (en, sub_usize-suc profile (wins rest) (omega (arith, wins-le-length rest)))
pop_oldest-with_window profile false rest a small ew en =
    ap (λ n. ok (record a { sliding_window = rest; window_wins = n })) (en ∙ omega arith)

wins-snoc :
    (w : Bool) (window : List Bool)
    → (if w then wins window + 1 else wins window) ≡ wins (window ++ (w ∷ []))
wins-snoc true window = omega (arith, wins-append window (true ∷ []))
wins-snoc false window = omega (arith, wins-append window (false ∷ []))

push_outcome-with_window :
    (w : Bool) (window : List Bool) (a : Audit)
    → push_outcome w (with_window window a) ≡ with_window (window ++ (w ∷ [])) a
push_outcome-with_window w window a =
    ap (λ n. record a { sliding_window = window ++ (w ∷ []); window_wins = n }) (wins-snoc w window)

-- One more outcome, in a history that does not fill the window and in one that does.
last-snoc_short :
    (h : List Bool) (w : Bool) → length h < 50 → last 50 (h ++ (w ∷ [])) ≡ last 50 h ++ (w ∷ [])
last-snoc_short h w short =
    last-short (h ++ (w ∷ [])) (omega (arith, length-append h (w ∷ [])))
    ∙ ap (λ xs. xs ++ (w ∷ [])) (sym (last-short h (omega arith)))

last-snoc_long :
    (h : List Bool) (w : Bool)
    → 50 ≤ length h
    → (x : Bool) × (rest : List Bool) × (last 50 h ≡ x ∷ rest)
      × (length rest ≡ 49)
      × (last 50 (h ++ (w ∷ [])) ≡ rest ++ (w ∷ []))
last-snoc_long h w long =
    let k = length h - 50 in
    let (x, e) = drop-suc k h (omega arith) in
    let k' : length (h ++ (w ∷ [])) - 50 ≡ suc k = omega (arith, length-append h (w ∷ [])) in
    (
      x,
      drop (suc k) h,
      e,
      omega (arith, length-drop (suc k) h),
      rw k' (drop-append_of_le (suc k) h (w ∷ []) (omega arith)),
    )

-- A window that is full, and one that is not.
slide_window-full :
    (profile : Profile) (w x : Bool) (rest : List Bool) (a : Audit)
    → length rest ≡ 49
    → a.sliding_window ≡ x ∷ rest
    → a.window_wins ≡ wins (x ∷ rest)
    → slide_window profile w a ≡ ok (with_window (rest ++ (w ∷ [])) a)
unfolding slide_window
slide_window-full profile w x rest a l ew en =
    let full : (length a.sliding_window == 50) ≡ true =
      (==_iff (length a.sliding_window) 50).1 (ap length ew ∙ omega arith) in
    ap
      (λ b.
        (if b then pop_oldest profile a.sliding_window a else ok a) >>= λ b. ok (push_outcome w b))
      full
    ∙ ap (λ ws. pop_oldest profile ws a >>= λ b. ok (push_outcome w b)) ew
    ∙ ap (λ r. r >>= λ b. ok (push_outcome w b))
        (pop_oldest-with_window profile x rest a (omega arith) ew en)
    ∙ ap ok (push_outcome-with_window w rest a)

slide_window-open :
    (profile : Profile) (w : Bool) (a : Audit)
    → length a.sliding_window < 50
    → a.window_wins ≡ wins a.sliding_window
    → slide_window profile w a ≡ ok (with_window (a.sliding_window ++ (w ∷ [])) a)
unfolding slide_window
slide_window-open profile w a short en =
    let vacant : (length a.sliding_window == 50) ≡ false = ground arith in
    ap
      (λ b.
        (if b then pop_oldest profile a.sliding_window a else ok a) >>= λ b. ok (push_outcome w b))
      vacant
    ∙ ap (λ n. ok (record a { sliding_window = a.sliding_window ++ (w ∷ []); window_wins = n }))
        (ap (λ m. if w then m + 1 else m) en ∙ wins-snoc w a.sliding_window)

-- A window that shows a history shows it with the next outcome once that has gone through it.
pub slide_window-Shows :
    (profile : Profile) (h : List Bool) (w : Bool) (a : Audit)
    → Shows h a
    → slide_window profile w a ≡ ok (with_window (last 50 (h ++ (w ∷ []))) a)
slide_window-Shows profile h w a (ew, en) = elim (Bool-cases (leb 50 (length h))) [
  | inl long ↦ filled (last-snoc_long h w (ground arith))
  | inr short ↦
      let few : length h < 50 = ground arith in
      let size : length a.sliding_window < 50 =
        omega (arith, ap length (ew ∙ last-short h (omega arith))) in
      slide_window-open profile w a size (en ∙ ap wins (sym ew))
      ∙ ap (λ ws. ok (with_window (ws ++ (w ∷ [])) a)) ew
      ∙ ap (λ ws. ok (with_window ws a)) (sym (last-snoc_short h w few))
]
  where
    filled :
        (x : Bool) × (rest : List Bool) × (last 50 h ≡ x ∷ rest)
          × (length rest ≡ 49)
          × (last 50 (h ++ (w ∷ [])) ≡ rest ++ (w ∷ []))
        → slide_window profile w a ≡ ok (with_window (last 50 (h ++ (w ∷ []))) a)
    filled (x, rest, e, l, next) =
        slide_window-full profile w x rest a l (ew ∙ e) (en ∙ ap wins e)
        ∙ ap (λ ws. ok (with_window ws a)) (sym next)
