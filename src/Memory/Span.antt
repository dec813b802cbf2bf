-- ===== src/Memory/Span.antt =====
-- src/context/memory.rs, `PageSpan`: a range of pages, and `Page` of src/arch/x86_shared/paging/mod.rs,
-- which is a page's number. The page size is a parameter.
pub mod Pages
use redox_kernel.Common.{
  ℕ, ◌+◌, ◌-◌, ◌*◌, ◌/◌, ◌%◌, min, max, Option, none, some, Bool, true, false, ◌||◌, not, ltb, leb,
  ◌==◌, if◌then◌else◌, saturating_add, add_usize, sub_usize, mul_usize, Result, ok, panic, ◌>>=◌,
  ◌>>◌, assert,
}

pub record PageSpan : Type 0 where
  pub base : ℕ
  pub count : ℕ

-- `PageSpan::new`
abbrev pub span : ℕ → ℕ → PageSpan
span base count = record { base = base; count = count }

-- `Page::next_by` and `Page::offset_from`
abbrev pub next_by : ℕ → ℕ → ℕ
next_by page n = add_usize page n

abbrev pub offset_from : ℕ → ℕ → ℕ
offset_from page other = sub_usize page other

abbrev pub empty : PageSpan
empty = record { base = 0; count = 0 }

abbrev pub is_empty : PageSpan → Bool
is_empty s = s.count == 0

abbrev pub end : PageSpan → ℕ
end s = next_by s.base s.count

-- `.filter(|reg| !reg.is_empty())`
abbrev pub non_empty : PageSpan → Option PageSpan
non_empty s = if is_empty s then none else some s

module _ (page_size : ℕ) where
  -- `Page::start_address`
  abbrev pub start_address : ℕ → ℕ
  start_address page = mul_usize page page_size

  unfoldable pub between : ℕ → ℕ → PageSpan
  between start end = span start ((start_address end - start_address start) / page_size)

  unfoldable pub intersection : PageSpan → PageSpan → PageSpan
  unfolding between
  intersection s with = between (max s.base with.base) (min (end s) (end with))

  unfoldable pub intersects : PageSpan → PageSpan → Bool
  unfolding intersection
  intersects s with = not (is_empty (intersection s with))

  unfoldable pub before : PageSpan → PageSpan → Result (Option PageSpan)
  unfolding between
  before s inner = do assert (leb s.base inner.base); ok (non_empty (between s.base inner.base))

  unfoldable pub after : PageSpan → PageSpan → Result (Option PageSpan)
  unfolding between
  after s inner = do assert (leb (end inner) (end s)); ok (non_empty (between (end inner) (end s)))

  unfoldable pub slice : PageSpan → PageSpan → Result (Option PageSpan × PageSpan × Option PageSpan)
  unfolding before after
  slice s inner = do b ← before s inner; a ← after s inner; ok (b, inner, a)

  -- `crate::USER_END_OFFSET` is `user_end`.
  unfoldable pub validate : ℕ → ℕ → ℕ → Option PageSpan
  validate user_end address size =
      if not (address % page_size == 0) || not (size % page_size == 0)
      then none
      else if ltb user_end (saturating_add address size)
      then none
      else some (span (address / page_size) (size / page_size))

  unfoldable pub validate_nonempty : ℕ → ℕ → ℕ → Option PageSpan
  unfolding validate
  validate_nonempty user_end address size = elim (validate user_end address size) [
    | none ↦ none
    | some s ↦ if is_empty s then none else some s
  ]
