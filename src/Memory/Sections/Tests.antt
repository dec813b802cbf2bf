-- ===== src/Memory/Sections/Tests.antt =====
-- The search of src/memory/mod.rs for a page info, in two sections with a gap between them.
use redox_kernel.Common.{ℕ, ◌≡◌, refl, arith, some, none, List, [], ◌∷◌, ok}
use redox_kernel.Memory.PageInfo.{PageInfo}
use redox_kernel.Memory.Sections.{Section, get_page_info, page_at, get_page_info_lem}

abbrev info : ℕ → PageInfo
info n = record { refcount = n; next = 0 }

abbrev two_sections : List Section
two_sections =
    record { base = 256; frames = info 1 ∷ info 2 ∷ [] }
    ∷ record { base = 300; frames = info 3 ∷ info 4 ∷ info 5 ∷ [] }
    ∷ []

get_page_info_example : get_page_info two_sections 301 ≡ ok (page_at 301 two_sections)
get_page_info_example = get_page_info_lem 0 301 two_sections (omega arith, (omega arith, tt))

in_second : get_page_info two_sections 301 ≡ ok (some (info 4))
unfolding get_page_info
in_second = refl

in_gap : get_page_info two_sections 258 ≡ ok none
unfolding get_page_info
in_gap = refl
