-- ===== src/Api/Pagination.antt =====
-- internal/api/pagination.go
use gitfusion.Prelude.{
  ◌≡◌, refl, Option, none, some, ℤ, pos, ltb_ℤ, leb_ℤ, true, if◌then◌else◌, arith,
}

abbrev page_or_default : Option ℤ → ℤ
page_or_default none = pos 1
page_or_default (some p) = p

abbrev per_page_or_default : Option ℤ → ℤ
per_page_or_default none = pos 20
per_page_or_default (some pp) = if ltb_ℤ (pos 100) pp then pos 100 else pp

unfoldable pub clamp_pagination : Option ℤ → Option ℤ → ℤ × ℤ
clamp_pagination page per_page =
    let p = page_or_default page in
    let pp = per_page_or_default per_page in
    (if ltb_ℤ p (pos 1) then pos 1 else p, if ltb_ℤ pp (pos 1) then pos 20 else pp)

-- For all parameters, absent ones included, the page is at least 1 and the page size from 1 to 100.
pub clamp_pagination-bounds :
    (page per_page : Option ℤ)
    → (leb_ℤ (pos 1) (clamp_pagination page per_page).0 ≡ true)
      × (leb_ℤ (pos 1) (clamp_pagination page per_page).1 ≡ true)
      × (leb_ℤ (clamp_pagination page per_page).1 (pos 100) ≡ true)
unfolding clamp_pagination
clamp_pagination-bounds none none = (refl, refl, refl)
clamp_pagination-bounds none (some pp) = ground arith
clamp_pagination-bounds (some p) none = ground arith
clamp_pagination-bounds (some p) (some pp) = ground arith

-- A page from 1 on and a page size from 1 to 100 are left as they are.
pub clamp_pagination-in_range :
    (p pp : ℤ)
    → leb_ℤ (pos 1) p ≡ true
    → leb_ℤ (pos 1) pp ≡ true
    → leb_ℤ pp (pos 100) ≡ true
    → clamp_pagination (some p) (some pp) ≡ (p, pp)
unfolding clamp_pagination
clamp_pagination-in_range p pp h k l = ground arith
