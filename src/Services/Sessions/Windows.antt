-- ===== src/Services/Sessions/Windows.antt =====
-- Which windows a command may belong to, described without the service's own tests.
use lorelum.Prelude.{
  ℕ, ◌+◌, ◌≡◌, ◌↔◌, Bool, Bool-cases, true, false, ◌&&◌, Option, none, some, [], ◌∷◌, ltb, leb,
  Text, text_eq, text_eq_iff, text_eq_sound, inl, inr, arith,
}
use lorelum.Services.Sessions.{
  Platform, SessionRef, ActiveWindow, is_within, is_live, starts_up, session_id_valid,
}

-- A window that is live: it did not begin in the future, and less than 30 minutes ago.
abbrev pub in_lifetime : ℕ → ActiveWindow → Bool
in_lifetime time w = leb w.started_at time && ltb time (w.started_at + 1800000)

-- The way from the directory of a window to another one does not lead up, nor to another root.
abbrev pub IsContained : Platform → Text → ActiveWindow → Type 0
IsContained p directory w =
    ((p.relative w.cwd directory ≡ 46 ∷ 46 ∷ []) → ⊥)
    × ((rest : Text) → (p.relative w.cwd directory ≡ 46 ∷ 46 ∷ p.separator ∷ rest) → ⊥)
    × (p.is_absolute (p.relative w.cwd directory) ≡ false)

-- A window that a command in a directory may belong to.
abbrev pub IsCandidate : Platform → Text → ℕ → ActiveWindow → Type 0
IsCandidate p cwd time w = (in_lifetime time w ≡ true) × IsContained p (p.resolve_path cwd []) w

-- No session is given, or one whose id is not valid.
abbrev pub IsUnnamed : Platform → Option SessionRef → Type 0
IsUnnamed p none = Unit {0}
IsUnnamed p (some s) = session_id_valid p s.session_id ≡ false

pub is_live_lem : (time : ℕ) (w : ActiveWindow) → is_live time w ≡ in_lifetime time w
unfolding is_live
is_live_lem time w = ground arith

starts_up_iff :
    (separator : ℕ) (t : Text)
    → (starts_up separator t ≡ true) ↔ ((rest : Text) × (t ≡ 46 ∷ 46 ∷ separator ∷ rest))
starts_up_iff separator [] = (λ h. ground arith, λ (rest, e). ground arith)
starts_up_iff separator (c ∷ []) = (λ h. ground arith, λ (rest, e). ground arith)
starts_up_iff separator (c ∷ d ∷ []) = (λ h. ground arith, λ (rest, e). ground arith)
starts_up_iff separator (c ∷ d ∷ e ∷ ts) = (λ h. (ts, ground arith), λ (rest, q). ground arith)

pub is_within_sound :
    (p : Platform) (directory : Text) (w : ActiveWindow)
    → is_within p w.cwd directory ≡ true
    → IsContained p directory w
unfolding is_within
is_within_sound p directory w h =
    let difference = p.relative w.cwd directory in
    (
      λ e. ground (arith, text_eq_iff difference (46 ∷ 46 ∷ [])),
      λ rest e.
          let up : starts_up p.separator difference ≡ true =
            (starts_up_iff p.separator difference).1 (rest, e) in
          ground arith,
      ground arith,
    )

pub is_within_complete :
    (p : Platform) (directory : Text) (w : ActiveWindow)
    → IsContained p directory w
    → is_within p w.cwd directory ≡ true
unfolding is_within
is_within_complete p directory w (parent, up, root) =
    let difference = p.relative w.cwd directory in
    elim (Bool-cases (text_eq difference (46 ∷ 46 ∷ []))) [
      | inl e ↦
          let absurd : ⊥ = parent (text_eq_sound difference (46 ∷ 46 ∷ []) e) in elim absurd [ ]
      | inr other ↦ elim (Bool-cases (starts_up p.separator difference)) [
        | inl e ↦
            let (rest, made) = (starts_up_iff p.separator difference).0 e in
            let absurd : ⊥ = up rest made in elim absurd [ ]
        | inr down ↦ ground arith
      ]
    ]
