-- ===== src/Memory/Grants.antt =====
-- src/context/memory.rs: what is mapped in an address space, `Provider`, `GrantInfo` and `Grant`, and
-- how a grant is cut in three by `Grant::extract`. A shared file description, an address space and
-- the page flags are numbers; a frame is its physical address.
pub mod Table
pub mod Munmap
pub mod Pages
pub mod Conflicts
pub mod Place
pub mod Placed
pub mod Runs
pub mod Insert
pub mod Split
pub mod TakeOut
pub mod Rest
pub mod Unmap
pub mod Mmap
pub mod Mprotect
pub mod Select
pub mod Mapping
pub mod Rewrite
pub mod Protect
pub mod Tests
use redox_kernel.Common.{
  ℕ, ◌+◌, ◌*◌, Option, none, some, Bool, true, false, ◌&&◌, ◌||◌, not, ltb, ◌==◌, if◌then◌else◌,
  add_usize, mul_usize, usize_mod, Result, ok, panic, ◌>>=◌, ◌>>◌, assert, expect,
}
use redox_kernel.Memory.Span.{PageSpan, span, slice}

pub record GrantFileRef : Type 0 where
  pub description : ℕ
  pub base_offset : ℕ

pub data Provider : Type 0 where
  allocated : (cow_file_ref : Option GrantFileRef) (phys_contiguous : Bool) → Provider
  allocated_shared : (is_pinned_userscheme_borrow : Bool) → Provider
  phys_borrowed : (base : ℕ) → Provider
  external : (address_space src_base : ℕ) (is_pinned_userscheme_borrow : Bool) → Provider
  fmap_borrowed : (file_ref : GrantFileRef) (pin_refcount : ℕ) → Provider

pub record GrantInfo : Type 0 where
  pub page_count : ℕ
  pub flags : ℕ
  pub mapped : Bool
  pub provider : Provider

pub record Grant : Type 0 where
  pub base : ℕ
  pub info : GrantInfo

abbrev pub grant_span : Grant → PageSpan
grant_span g = span g.base g.info.page_count

abbrev pub provider_pinned : Provider → Bool
provider_pinned (allocated c k) = false
provider_pinned (allocated_shared pinned) = pinned
provider_pinned (phys_borrowed b) = false
provider_pinned (external a s pinned) = pinned
provider_pinned (fmap_borrowed f n) = ltb 0 n

abbrev pub is_pinned : GrantInfo → Bool
is_pinned i = provider_pinned i.provider

abbrev pub phys_contiguous_provider : Provider → Bool
phys_contiguous_provider (allocated c k) = k
phys_contiguous_provider (allocated_shared pinned) = false
phys_contiguous_provider (phys_borrowed b) = false
phys_contiguous_provider (external a s pinned) = false
phys_contiguous_provider (fmap_borrowed f n) = false

abbrev pub can_extract : GrantInfo → Bool → Bool
can_extract i unpin = (not (is_pinned i) || unpin) || phys_contiguous_provider i.provider

abbrev pub unpin_provider : Provider → Provider
unpin_provider (allocated c k) = allocated c k
unpin_provider (allocated_shared pinned) = allocated_shared false
unpin_provider (phys_borrowed b) = phys_borrowed b
unpin_provider (external a s pinned) = external a s false
unpin_provider (fmap_borrowed f n) = fmap_borrowed f n

-- `GrantInfo::unpin`
abbrev pub unpin_info : GrantInfo → GrantInfo
unpin_info i = record i { provider = unpin_provider i.provider }

-- `Provider::Allocated { cow_file_ref: None, phys_contiguous: false }`
abbrev pub plain : Provider → Bool
plain (allocated none false) = true
plain (allocated none true) = false
plain (allocated (some f) k) = false
plain (allocated_shared pinned) = false
plain (phys_borrowed b) = false
plain (external a s pinned) = false
plain (fmap_borrowed f n) = false

abbrev same_bool : Bool → Bool → Bool
same_bool true b = b
same_bool false b = not b

unfoldable pub can_be_merged_if_adjacent : GrantInfo → GrantInfo → Bool
can_be_merged_if_adjacent i with =
    if not (same_bool i.mapped with.mapped) || not (i.flags == with.flags)
    then false
    else plain i.provider && plain with.provider

-- The provider of the part before the extracted one.
abbrev pub before_provider : Provider → Provider
before_provider (external a s pinned) = external a s false
before_provider (allocated c k) = allocated c false
before_provider (allocated_shared pinned) = allocated_shared false
before_provider (phys_borrowed b) = phys_borrowed b
before_provider (fmap_borrowed f n) = fmap_borrowed f 0

-- `Option::map`, where the function may panic
abbrev pub map_result : {A B : Type 0} → (A → Result B) → Option A → Result (Option B)
map_result f none = ok none
map_result f (some a) = do b ← f a; ok (some b)

-- A part of the grant with its own provider.
abbrev pub part : GrantInfo → PageSpan → Provider → Grant
part i s p = record {
  base = s.base;
  info = record { page_count = s.count; flags = i.flags; mapped = i.mapped; provider = p };
}

abbrev pub part_before : GrantInfo → Option PageSpan → Option Grant
part_before i none = none
part_before i (some s) = some (part i s (before_provider i.provider))

abbrev pub pages_of : Option Grant → ℕ
pages_of none = 0
pages_of (some g) = g.info.page_count

module _ (page_size : ℕ) where
  -- `Frame::next_by`
  abbrev pub frame_next_by : ℕ → ℕ → Result ℕ
  frame_next_by physaddr n =
      let sum = physaddr + mul_usize n page_size in
      if ltb sum usize_mod && ltb 0 sum then ok sum else panic

  abbrev pub advance_file : GrantFileRef → ℕ → GrantFileRef
  advance_file f n = record f { base_offset = add_usize f.base_offset (mul_usize n page_size) }

  -- The extracted part keeps the provider, moved on by the pages before it.
  abbrev pub middle_provider : ℕ → Provider → Result Provider
  middle_provider n (phys_borrowed b) = do b' ← frame_next_by b n; ok (phys_borrowed b')
  middle_provider n (fmap_borrowed f c) = ok (fmap_borrowed (advance_file f n) c)
  middle_provider n (allocated (some f) k) = ok (allocated (some (advance_file f n)) k)
  middle_provider n (allocated none k) = ok (allocated none k)
  middle_provider n (allocated_shared pinned) = ok (allocated_shared pinned)
  middle_provider n (external a s pinned) = ok (external a s pinned)

  -- The provider of the part behind the extracted one, of `n` pages.
  abbrev pub after_provider : ℕ → Provider → Result Provider
  after_provider n (allocated none k) = ok (allocated none false)
  after_provider n (allocated_shared pinned) = ok (allocated_shared false)
  after_provider n (allocated (some f) k) = ok (allocated (some (advance_file f n)) false)
  after_provider n (external a s pinned) = ok (external a s false)
  after_provider n (phys_borrowed b) = do b' ← frame_next_by b n; ok (phys_borrowed b')
  after_provider n (fmap_borrowed f c) = ok (fmap_borrowed (advance_file f n) 0)

  abbrev pub part_after : GrantInfo → Provider → ℕ → PageSpan → Result Grant
  part_after i provider n s = do p ← after_provider n provider; ok (part i s p)

  unfoldable pub extract : Grant → PageSpan → Result (Option (Option Grant × Grant × Option Grant))
  extract g inner = do
    assert (can_extract g.info false)
    s ← slice page_size (grant_span g) inner
    let before_grant = part_before g.info s.0
    p ← middle_provider (pages_of before_grant) g.info.provider
    after_grant ← map_result (part_after g.info p s.1.count) s.2
    ok (some (before_grant, part g.info s.1 p, after_grant))
