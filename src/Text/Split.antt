-- ===== src/Text/Split.antt =====
-- `split`, `split_whitespace`'s cutting, `rsplit_once` and `join`, with the laws between them.
use sqlx_monetdb.Prelude.{
  ℕ, ◌≡◌, ◌≢◌, refl, ap, ◌∙◌, Bool, true, false, ◌&&◌, List, [], ◌∷◌, ◌++◌, Option, none, some,
  arith, ◌==◌, if◌then◌else◌, All, All-append, Bool-cases, inl, inr, ==_ne,
}
use sqlx_monetdb.Text.{Text, Lacks}

-- A character in front of the first part.
abbrev pub onto_first : ℕ → List Text → List Text
onto_first c [] = (c ∷ []) ∷ []
onto_first c (p ∷ ps) = (c ∷ p) ∷ ps

-- `s.split(p)` for a test on characters.
unfoldable pub split_by : (ℕ → Bool) → Text → List Text
split_by p [] = [] ∷ []
split_by p (c ∷ s) = let rest = split_by p s in if p c then [] ∷ rest else onto_first c rest

-- `s.split(c)`
unfoldable pub split : Text → ℕ → List Text
unfolding split_by
split s c = split_by (λ x. x == c) s

-- `s.split("ab")` for a separator of two different characters.
unfoldable pub split_pair : ℕ → ℕ → Text → List Text
split_pair a b [] = [] ∷ []
split_pair a b (c ∷ []) = (c ∷ []) ∷ []
split_pair a b (c ∷ d ∷ s) = elim ((c == a) && (d == b)) [
  | true ↦ [] ∷ split_pair a b s
  | false ↦ onto_first c (split_pair a b (d ∷ s))
]

-- `s.rsplit_once(c)`
unfoldable pub rsplit_once : Text → ℕ → Option (Text × Text)
rsplit_once [] c = none
rsplit_once (x ∷ s) c = elim (rsplit_once s c) [
  | some (front, back) ↦ some (x ∷ front, back)
  | none ↦ if x == c then some ([], s) else none
]

-- `parts.join(c)`
unfoldable pub join : List Text → ℕ → Text
join [] c = []
join (p ∷ []) c = p
join (p ∷ q ∷ ps) c = p ++ (c ∷ join (q ∷ ps) c)

pub split-sep : (p s : Text) (c : ℕ) → Lacks c p → split (p ++ (c ∷ s)) c ≡ p ∷ split s c
unfolding split
split-sep [] s c h = ground arith
split-sep (x ∷ p) s c (hx, h) = let ih = split-sep p s c h in ground (arith, ih)

pub split-Lacks : (p : Text) (c : ℕ) → Lacks c p → split p c ≡ p ∷ []
unfolding split
split-Lacks [] c h = refl
split-Lacks (x ∷ p) c (hx, h) = let ih = split-Lacks p c h in ground (arith, ih)

pub split-join :
    (p : Text) (ps : List Text) (c : ℕ)
    → All (Lacks c) (p ∷ ps)
    → split (join (p ∷ ps) c) c ≡ p ∷ ps
unfolding join
split-join p [] c (h, _) = split-Lacks p c h
split-join p (q ∷ ps) c (h, hs) =
    split-sep p (join (q ∷ ps) c) c h ∙ ap (λ r. p ∷ r) (split-join q ps c hs)

pub rsplit_once-Lacks : (s : Text) (c : ℕ) → Lacks c s → rsplit_once s c ≡ none
unfolding rsplit_once
rsplit_once-Lacks [] c h = refl
rsplit_once-Lacks (x ∷ s) c (hx, h) = rw (rsplit_once-Lacks s c h) (ground arith)

pub rsplit_once-sep :
    (front back : Text) (c : ℕ)
    → Lacks c back
    → rsplit_once (front ++ (c ∷ back)) c ≡ some (front, back)
unfolding rsplit_once
rsplit_once-sep [] back c h = rw (rsplit_once-Lacks back c h) (ground arith)
rsplit_once-sep (x ∷ front) back c h = rw (rsplit_once-sep front back c h)

pub split-join_ne : (ps : List Text) (c : ℕ) → ps ≢ [] → All (Lacks c) ps → split (join ps c) c ≡ ps
split-join_ne [] c ne h = absurd (ne refl)
split-join_ne (p ∷ ps) c ne h = split-join p ps c h

pub onto_first-ne-nil : (c : ℕ) (ps : List Text) → onto_first c ps ≢ []
onto_first-ne-nil c [] h = cc h
onto_first-ne-nil c (p ∷ ps) h = cc h

pub split-ne-nil : (s : Text) (c : ℕ) → split s c ≢ []
unfolding split
split-ne-nil [] c = λ h. cc h
split-ne-nil (x ∷ s) c = elim (Bool-cases (x == c)) [
  | inl e ↦ rw e (λ h. cc h)
  | inr e ↦ rw e (onto_first-ne-nil x (split_by (λ y. y == c) s))
]

pub split_ne : (x : ℕ) (s : Text) (c : ℕ) → x ≢ c → split (x ∷ s) c ≡ onto_first x (split s c)
unfolding split
split_ne x s c h = rw (==_ne x c h)

module _ (p : ℕ → Bool) where
  pub split_by-sep :
      (w s : Text) (c : ℕ)
      → All (λ x. p x ≡ false) w
      → p c ≡ true
      → split_by p (w ++ (c ∷ s)) ≡ w ∷ split_by p s
  unfolding split_by
  split_by-sep [] s c h hc = rw hc
  split_by-sep (x ∷ w) s c (hx, h) hc = rw hx (ap (onto_first x) (split_by-sep w s c h hc))

  pub split_by-clear : (w : Text) → All (λ x. p x ≡ false) w → split_by p w ≡ w ∷ []
  unfolding split_by
  split_by-clear [] h = refl
  split_by-clear (x ∷ w) (hx, h) = rw hx (ap (onto_first x) (split_by-clear w h))

  pub split_by-join :
      (w : Text) (ws : List Text) (c : ℕ)
      → All (All (λ x. p x ≡ false)) (w ∷ ws)
      → p c ≡ true
      → split_by p (join (w ∷ ws) c) ≡ w ∷ ws
  unfolding join
  split_by-join w [] c (h, _) hc = split_by-clear w h
  split_by-join w (v ∷ ws) c (h, hs) hc =
      split_by-sep w (join (v ∷ ws) c) c h hc ∙ ap (λ r. w ∷ r) (split_by-join v ws c hs hc)

pub join-Lacks : (b c : ℕ) (ps : List Text) → c ≢ b → All (Lacks b) ps → Lacks b (join ps c)
unfolding join
join-Lacks b c [] ne h = tt
join-Lacks b c (p ∷ []) ne (hp, h) = hp
join-Lacks b c (p ∷ q ∷ ps) ne (hp, h) =
    All-append _ p (c ∷ join (q ∷ ps) c) hp (ne, join-Lacks b c (q ∷ ps) ne h)
