-- ===== src/Listing/Pages.antt =====
-- Which items a page has, and whether there is another.
use shellspectre.Base.{
  ℕ, suc, ◌+◌, ◌-◌, ◌*◌, ◌/◌, ◌%◌, ◌^◌, ◌≤◌, ◌<◌, ◌≡◌, ◌↔◌, inl, inr, true, false, arith, ◌==◌,
  Bool-cases,
}
use native.Mathlib.Nat.{
  div-add-mod', mod-lt, mul-le-mul_right, mul-lt-mul_of_pos_right, lt_of_mul-lt-mul_right, suc-mul,
}
use shellspectre.Listing.{ListRequest, Page, offset, div_ceil, total_pages, has_next}

-- `/` for a divisor that is a variable
div_le_iff : (b : ℕ) → 0 < b → (p a : ℕ) → (p * b ≤ a) ↔ (p ≤ a / b)
div_le_iff b nz p a = (
  λ h.
      let low : p < suc (a / b) =
        lt_of_mul-lt-mul_right b
          (omega (arith, h, suc-mul (a / b) b, div-add-mod' a b, mod-lt a nz)) in
      omega (arith, low),
  λ h. omega (arith, div-add-mod' a b, mul-le-mul_right b h),
)

lt_div_ceil_iff : (b : ℕ) → 0 < b → (p a : ℕ) → (p < div_ceil a b) ↔ (p * b < a)
unfolding div_ceil
lt_div_ceil_iff b nz p a = elim (Bool-cases (a % b == 0)) [
  | inl exact ↦ (
    λ h.
        ground
          (arith, exact, mul-lt-mul_of_pos_right {k = b} (to_exact exact h) nz, div-add-mod' a b),
    λ h.
        let few : p * b < a / b * b = ground (arith, exact, h, div-add-mod' a b) in
        ground (arith, exact, lt_of_mul-lt-mul_right b few),
  )
  | inr rest ↦ (
    λ h. ground (arith, rest, mul-le-mul_right b (to_rest rest h), div-add-mod' a b),
    λ h. ground (arith, rest, (div_le_iff b nz p a).0 (omega (arith, h))),
  )
]
  where
    to_exact : (a % b == 0) ≡ true → p < div_ceil a b → p < a / b
    to_exact e h = ground arith

    to_rest : (a % b == 0) ≡ false → p < div_ceil a b → p ≤ a / b
    to_rest e h = ground arith

-- Below the largest page number, there is a next page exactly when some items come after this page,
-- with at least one item per page.
has_next_iff :
    {A : Type 0} (p : Page A)
    → 0 < p.page_size
    → 1 ≤ p.page
    → p.page < 2 ^ 32 - 1
    → (has_next p ≡ true) ↔ (p.page * p.page_size < p.total_items)
unfolding has_next total_pages
has_next_iff p nz first small = (
  λ h. ground (arith, h, lt_div_ceil_iff p.page_size nz p.page p.total_items),
  λ h. ground (arith, h, lt_div_ceil_iff p.page_size nz p.page p.total_items),
)

pub offset-fits :
    (request : ListRequest)
    → (request.page - 1) * request.page_size < 2 ^ 32
    → offset request ≡ (request.page - 1) * request.page_size
unfolding offset
offset-fits request fits = omega (arith, fits)

-- With at least one item per page, and as long as the offset fits a `u32`, each item stands on
-- exactly one page: the item `i` on the page `i / page_size + 1`.
pub offset_iff :
    (request : ListRequest) (i : ℕ)
    → 0 < request.page_size
    → 1 ≤ request.page
    → (request.page - 1) * request.page_size < 2 ^ 32
    → ((offset request ≤ i) × (i < offset request + request.page_size))
      ↔ (request.page ≡ i / request.page_size + 1)
unfolding offset
offset_iff request i nz first fits =
    let size = request.page_size in
    let before = request.page - 1 in
    let same : (before * size) % 2 ^ 32 ≡ before * size = omega (arith, fits) in
    let lower = div_le_iff size nz before i in
    let upper = div_le_iff size nz (suc before) i in
    let next = suc-mul before size in
    (
      λ h. ground (arith, same, h, lower, upper, next, first),
      λ h. ground (arith, same, h, lower, upper, next, first),
    )
