-- ===== src/Fat/Paths/Fragments.antt =====
-- `fat_follow_path` goes along the components of a path.
use operating_system_cortex.Prelude.{
  ℕ, suc, ◌+◌, ◌<◌, ◌≡◌, false, List, [], ◌∷◌, ◌==◌, if◌then◌else◌, length, some, ◌⊎◌,
}
use operating_system_cortex.Prelude.Int.{pos, is_pos}
use operating_system_cortex.Prelude.Outcome.{Outcome, ok}
use operating_system_cortex.Fat.{Fat, Disk, File}
use operating_system_cortex.Fat.Entries.{
  Result, and_then, and_then_some, unless_neg, fat_dir_search,
}
use operating_system_cortex.Bytes.{Memory}
use operating_system_cortex.Fat.Paths.{enter}

-- The characters of a component stand at `p`; none of them is a slash.
abbrev pub Component : Memory → (p : ℕ) → List ℕ → Type 0
Component m p [] = Unit
Component m p (c ∷ cs) = (m p ≡ c) × ((c == 0x2F) ≡ false) × Component m (suc p) cs

-- Nothing of a path is followed from `p` on: it ends here, or a slash stands here that is the last
-- character, or that another slash is behind.
abbrev pub Stops : Memory → (p end_ : ℕ) → Type 0
Stops m p end_ =
    (p ≡ end_) ⊎ (m p ≡ 0x2F) × (p < end_) × ((suc p ≡ end_) ⊎ (m (suc p) ≡ 0x2F) × (suc p < end_))

-- At `p` stands a path up to `end_`: a slash in front of each component, none of which is empty, and
-- behind them nothing that is followed.
abbrev pub PathAt : Memory → (p end_ : ℕ) → List (List ℕ) → Type 0
PathAt m p end_ [] = Stops m p end_
PathAt m p end_ (c ∷ cs) =
    (m p ≡ 0x2F) × Component m (suc p) c × (0 < length c) × PathAt m (suc p + length c) end_ cs

-- Where the components stand, with their lengths.
abbrev pub places : (p : ℕ) → List (List ℕ) → List (ℕ × ℕ)
places p [] = []
places p (c ∷ cs) = (length c, suc p) ∷ places (suc p + length c) cs

-- The path is followed from place to place: each is the name that is searched for in the directory
-- that the one before has led to.
abbrev pub follow_places : (rounds : ℕ) → Fat → Disk → Memory → List (ℕ × ℕ) → File → Result
follow_places rounds fat disk m [] f = some (ok (pos 0, f))
follow_places rounds fat disk m ((len, frag) ∷ ps) f =
    and_then_some (fat_dir_search rounds rounds fat disk (λ i. m (frag + i)) len f) (λ err f1.
      if is_pos 0 err
      then and_then (enter fat disk f1)
          (unless_neg (λ err f2. follow_places rounds fat disk m ps f2))
      else some (ok (err, f1)))
