-- ===== src/HtmlEscape/TabStops.antt =====
-- `tabs_to_spaces` (libs/html_escape.rs) against a closed form: a tab is as many spaces as are
-- missing to the next multiple of the tab width.
use Prim.Native.Nat.{suc, zero, ◌-◌, ◌<◌, ◌≤◌}
use native.Mathlib.Nat.{mod-lt, mod_self, mod-add-mod, mod-eq_of_lt}
use crackstation_rust.Base.{
  ℕ, ◌+◌, ◌%◌, true, false, some, [], ◌∷◌, ◌++◌, Text, ◌==◌, ◌≡◌, ◌≢◌, refl, arith,
}
use crackstation_rust.HtmlEscape.{space, tab, fill, expand, advance, tabs_from, tabs_to_spaces}

spaces : ℕ → Text
spaces zero = []
spaces (suc n) = space ∷ spaces n

gap : ℕ → ℕ → ℕ
gap w cursor = w - cursor % w

pub expanded : ℕ → ℕ → Text → Text
expanded w cursor [] = []
expanded w cursor (c ∷ s) = elim (c == tab) [
  | true ↦ spaces (gap w cursor) ++ expanded w (cursor + gap w cursor) s
  | false ↦ c ∷ expanded w (advance c cursor) s
]

-- The loop stops at the first cursor that is a multiple of the width.
fill_lem :
    (w k fuel cursor : ℕ)
    → k < fuel
    → (cursor + k) % w ≡ 0
    → ((j : ℕ) → j < k → (cursor + j) % w ≢ 0)
    → fill w fuel cursor ≡ some (spaces k, cursor + k)
unfolding fill spaces
fill_lem w zero zero cursor h stop before = elim h [ ]
fill_lem w (suc k) zero cursor h stop before = elim h [ ]
fill_lem w zero (suc fuel) cursor h stop before = ground arith
fill_lem w (suc k) (suc fuel) cursor h stop before =
    let e : cursor + 1 + k ≡ cursor + suc k = omega arith in
    let ih = fill_lem w k fuel (cursor + 1) (omega arith) (rw e stop) (λ j lt.
      let e' : cursor + 1 + j ≡ cursor + suc j = omega arith in
      rw e' (before (suc j) (omega arith))) in
    ground (arith, ih, before 0)

mod_stop : (w cursor : ℕ) → 0 < w → (cursor + gap w cursor) % w ≡ 0
unfolding gap
mod_stop w cursor h =
    let e : cursor % w + (w - cursor % w) ≡ w = omega (arith, mod-lt cursor h) in
    rw (← mod-add-mod cursor w (w - cursor % w), e) (mod_self w)

mod_before : (w cursor j : ℕ) → 0 < w → 0 < j → j < gap w cursor → (cursor + j) % w ≢ 0
unfolding gap
mod_before w cursor j h p q =
    let lt : cursor % w + j < w = omega arith in
    rw (← mod-add-mod cursor w j, mod-eq_of_lt lt) (omega arith)

expand_lem :
    (w cursor : ℕ) → 0 < w → expand w cursor ≡ some (spaces (gap w cursor), cursor + gap w cursor)
unfolding expand
expand_lem w cursor h =
    let m = gap w cursor - 1 in
    let big : 0 < gap w cursor = unfold gap in omega (arith, mod-lt cursor h) in
    let small : gap w cursor ≤ w = unfold gap in omega arith in
    let e : gap w cursor ≡ suc m = omega arith in
    let e' : cursor + 1 + m ≡ cursor + gap w cursor = omega arith in
    let filled = fill_lem w m w (cursor + 1) (omega arith) (rw e' (mod_stop w cursor h)) (λ j lt.
      let f : cursor + 1 + j ≡ cursor + (j + 1) = omega arith in
      rw f (mod_before w cursor (j + 1) h (omega arith) (omega arith))) in
    unfold spaces in ground (arith, filled, e, e')

tabs_from_lem :
    (w cursor : ℕ) (s : Text) → 0 < w → tabs_from w cursor s ≡ some (expanded w cursor s)
unfolding tabs_from expanded
tabs_from_lem w cursor [] h = refl
tabs_from_lem w cursor (c ∷ s) h = ground (
  arith,
  expand_lem w cursor,
  tabs_from_lem w (cursor + gap w cursor) s,
  tabs_from_lem w (advance c cursor) s,
)

-- With a positive tab width the function returns, each tab replaced by the spaces up to the next
-- multiple of the width, counted from the last line ending; every other character stays.
pub tabs_to_spaces-eq-expanded :
    (text : Text) (tab_width : ℕ)
    → 0 < tab_width
    → tabs_to_spaces text tab_width ≡ some (expanded tab_width 0 text)
unfolding tabs_to_spaces
tabs_to_spaces-eq-expanded text tab_width h = tabs_from_lem tab_width 0 text h
