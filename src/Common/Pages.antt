-- ===== src/Common/Pages.antt =====
-- `paginated` of src/common/paginated.ts.
pub mod Laws
use meru_core.Base.{
  ℕ, ◌+◌, ◌-◌, ◌*◌, ◌/◌, Option, List, Bool, if◌then◌else◌, nat_eq, ltb, length, get_or,
}

pub record PaginationMeta : Type 0 where
  pub page : ℕ
  pub page_size : ℕ
  pub total_items : ℕ
  pub total_pages : ℕ
  pub has_next : Bool
  pub has_previous : Bool

pub record Paginated (A : Type 0) : Type 0 where
  pub items : List A
  pub pagination : PaginationMeta

-- `Math.ceil(n / d)` of a positive `d`
abbrev pub ceil_div : ℕ → ℕ → ℕ
ceil_div n d = (n + (d - 1)) / d

-- `items.length || 20`, and 20 for a limit of 0
abbrev pub size_of : {A : Type 0} → List A → Option ℕ → ℕ
size_of items limit =
    let default_limit = if nat_eq (length items) 0 then 20 else length items in
    let limit' = get_or limit default_limit in if nat_eq limit' 0 then 20 else limit'

unfoldable pub paginated : {A : Type 0} → List A → ℕ → Option ℕ → Option ℕ → Paginated A
paginated items total page limit =
    let page' = get_or page 1 in
    let size = size_of items limit in
    let pages = ceil_div total size in
    record {
      items = items;
      pagination = record {
        page = page';
        page_size = size;
        total_items = total;
        total_pages = pages;
        has_next = ltb page' pages;
        has_previous = ltb 1 page';
      };
    }
