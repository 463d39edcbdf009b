-- ===== src/Common/Pages/Laws.antt =====
-- The counts of a page of src/common/paginated.ts.
use native.Mathlib.Nat.{le-div_iff_mul-le, add-mul}
use meru_core.Base.{
  ℕ, ◌+◌, ◌-◌, ◌*◌, ◌≤◌, ◌<◌, ◌≡◌, ◌↔◌, Option, List, true, arith, ltb, ltb→lt, get_or,
}
use meru_core.Common.Pages.{ceil_div, size_of, paginated}

size_of_pos : {A : Type 0} (items : List A) (limit : Option ℕ) → 0 < size_of items limit
size_of_pos items limit = ground arith

lt→ltb : (a b : ℕ) → a < b → ltb a b ≡ true
lt→ltb a b h = ground arith

-- Of `n` things in pages of `d`, page `p` is before the last exactly when it leaves some over.
before-last : (n d p : ℕ) → 0 < d → (p < ceil_div n d) ↔ (p * d < n)
before-last n d p h =
    let q = le-div_iff_mul-le {k = d} {x = p + 1} {y = n + (d - 1)} h in
    let e : (p + 1) * d ≡ p * d + d = ground (arith, add-mul p 1 d) in
    (λ lt. ground (arith, q.0 (ground arith), e), λ lt. ground (arith, q.1 (ground (arith, e))))

-- A page of a list has a next one exactly when items are left after it, and the pages are as many as
-- the items need: they hold all of them, and one fewer would not.
pub paginated_lem :
    {A : Type 0} (items : List A) (total : ℕ) (page limit : Option ℕ)
    → (let m = (paginated items total page limit).pagination in
        ((m.has_next ≡ true) ↔ (m.page * m.page_size < total))
        × (total ≤ m.total_pages * m.page_size)
        × ((p : ℕ) → p < m.total_pages → p * m.page_size < total))
unfolding paginated
paginated_lem items total page limit =
    let size = size_of items limit in
    let positive = size_of_pos items limit in
    let page' = get_or page 1 in
    let pages = ceil_div total size in
    let at : (p : ℕ) → (p < pages) ↔ (p * size < total) = λ p. before-last total size p positive in
    (
      (λ next. (at page').0 (ltb→lt page' pages next), λ lt. lt→ltb page' pages ((at page').1 lt)),
      ground (arith, at pages),
      λ p lt. (at p).0 lt,
    )
