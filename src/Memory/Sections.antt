-- ===== src/Memory/Sections.antt =====
-- `get_page_info` of src/memory/mod.rs: the page info of a frame, from the sections of memory in the
-- order of their bases. A frame is the number of its page.
mod Tests
use redox_kernel.Common.{
  ℕ, zero, suc, ◌+◌, ◌-◌, ◌≤◌, ◌<◌, ◌≡◌, ◌∙◌, ap, sym, refl, max, arith, Option, none, some, List,
  [], ◌∷◌, Bool, true, false, ◌&&◌, ltb, leb, ◌==◌, if◌then◌else◌, length, get_elem?, Bool-cases,
  ◌⊎◌, inl, inr, Result, ok, panic, ◌>>=◌, expect,
}
use redox_kernel.Memory.PageInfo.{PageInfo}

pub record Section : Type 0 where
  pub base : ℕ
  pub frames : List PageInfo

-- What `binary_search_by_key` answers: where the key is, or where it would be inserted.
pub data Search : Type 0 where
  found missing : ℕ → Search

abbrev pub behind : Search → Search
behind (found i) = found (suc i)
behind (missing i) = missing (suc i)

-- `sections.binary_search_by_key(&frame, ..)`, by what it answers on bases in ascending order
unfoldable pub search : ℕ → List Section → Search
search frame [] = missing 0
search frame (s ∷ ss) =
    let rest = search frame ss in
    if s.base == frame then found 0 else if ltb s.base frame then behind rest else missing 0

-- `Frame::offset_from`
unfoldable pub offset_from : ℕ → ℕ → Result ℕ
offset_from frame from = if ltb frame from then panic else ok (frame - from)

unfoldable pub info_in : List Section → ℕ → ℕ → Result (Option PageInfo)
unfolding offset_from
info_in sections frame i = do
  section ← expect (get_elem? sections i)
  offset ← offset_from frame section.base
  ok (get_elem? section.frames offset)

unfoldable pub info_found : List Section → ℕ → Search → Result (Option PageInfo)
unfolding info_in
info_found sections frame (found i) = info_in sections frame i
info_found sections frame (missing zero) = ok none
info_found sections frame (missing (suc i)) = info_in sections frame i

unfoldable pub get_page_info : List Section → ℕ → Result (Option PageInfo)
unfolding info_found search
get_page_info sections frame = info_found sections frame (search frame sections)

-- The page info of the frame in the first section that has it
unfoldable pub page_at : ℕ → List Section → Option PageInfo
page_at frame [] = none
page_at frame (s ∷ ss) =
    if leb s.base frame && ltb frame (s.base + length s.frames)
    then get_elem? s.frames (frame - s.base)
    else page_at frame ss

-- The sections lie one behind the other, from frame `lo` on.
abbrev pub AreApart : ℕ → List Section → Type 0
AreApart lo [] = Unit
AreApart lo (s ∷ ss) = (lo ≤ s.base) × AreApart (max (s.base + 1) (s.base + length s.frames)) ss

page_at-below :
    (frame lo : ℕ) (ss : List Section) → frame < lo → AreApart lo ss → page_at frame ss ≡ none
unfolding page_at
page_at-below frame lo [] h a = refl
page_at-below frame lo (s ∷ ss) h a =
    let rest =
      page_at-below frame (max (s.base + 1) (s.base + length s.frames)) ss (omega (arith, a.0))
        a.1 in
    ground (arith, rest, a.0)

get_elem?-past : {A : Type 0} (xs : List A) (i : ℕ) → length xs ≤ i → get_elem? xs i ≡ none
get_elem?-past [] i h = refl
get_elem?-past (x ∷ xs) zero h = absurd (omega arith)
get_elem?-past (x ∷ xs) (suc i) h = get_elem?-past xs i (omega arith)

-- A section that begins at or before the frame, with none that does behind it
info_in_here :
    (frame : ℕ) (s : Section) (ss : List Section)
    → s.base ≤ frame
    → page_at frame ss ≡ none
    → info_in (s ∷ ss) frame 0 ≡ ok (page_at frame (s ∷ ss))
unfolding info_in offset_from page_at
info_in_here frame s ss h none_behind = elim (Bool-cases (ltb frame (s.base + length s.frames))) [
  | inl inside ↦ ground (arith, inside)
  | inr past ↦
      let gone = get_elem?-past s.frames (frame - s.base) (ground arith) in
      ground (arith, past, gone, none_behind)
]

page_at-behind :
    (frame : ℕ) (s : Section) (ss : List Section)
    → s.base + length s.frames ≤ frame
    → page_at frame (s ∷ ss) ≡ page_at frame ss
unfolding page_at
page_at-behind frame s ss h = ground arith

-- Where a section begins at or before the frame, those before it do not have the frame.
reached :
    (frame lo : ℕ) (ss : List Section)
    → AreApart lo ss
    → (search frame ss ≡ missing 0) ⊎ (lo ≤ frame)
unfolding search
reached frame lo [] a = inl refl
reached frame lo (s ∷ ss) a = elim (Bool-cases (ltb frame s.base)) [
  | inl before ↦ inl (ground (arith, before))
  | inr after ↦ inr (ground (arith, after, a.0))
]

found_behind :
    (s : Section) (ss : List Section) (frame : ℕ) (r : Search)
    → (r ≡ missing 0) ⊎ (info_found (s ∷ ss) frame (behind r) ≡ info_found ss frame r)
unfolding info_found info_in
found_behind s ss frame (found i) = inr refl
found_behind s ss frame (missing zero) = inl refl
found_behind s ss frame (missing (suc i)) = inr refl

search-found :
    (frame : ℕ) (s : Section) (ss : List Section)
    → (s.base == frame) ≡ true
    → search frame (s ∷ ss) ≡ found 0
unfolding search
search-found frame s ss h = rw h refl

search-before :
    (frame : ℕ) (s : Section) (ss : List Section)
    → frame < s.base
    → search frame (s ∷ ss) ≡ missing 0
unfolding search
search-before frame s ss h =
    let other : (s.base == frame) ≡ false = ground arith in
    let before : ltb s.base frame ≡ false = ground arith in rw (other, before) refl

search-behind :
    (frame : ℕ) (s : Section) (ss : List Section)
    → s.base < frame
    → search frame (s ∷ ss) ≡ behind (search frame ss)
unfolding search
search-behind frame s ss h =
    let other : (s.base == frame) ≡ false = ground arith in
    let after : ltb s.base frame ≡ true = ground arith in rw (other, after) refl

-- The last section that begins at or before the frame
info_last :
    (frame : ℕ) (s : Section) (ss : List Section)
    → s.base < frame
    → search frame ss ≡ missing 0
    → get_page_info ss frame ≡ ok (page_at frame ss)
    → get_page_info (s ∷ ss) frame ≡ ok (page_at frame (s ∷ ss))
unfolding get_page_info info_found
info_last frame s ss h miss rest =
    let nowhere : ok none ≡ ok (page_at frame ss) = ap (info_found ss frame) (sym miss) ∙ rest in
    ap (info_found (s ∷ ss) frame) (search-behind frame s ss h ∙ ap behind miss)
    ∙ info_in_here frame s ss (omega arith) (ground (arith, nowhere))

-- On sections that lie one behind the other, the search by their bases never panics, and finds the
-- page info of a frame exactly where a section has the frame.
pub get_page_info_lem :
    (lo frame : ℕ) (sections : List Section)
    → AreApart lo sections
    → get_page_info sections frame ≡ ok (page_at frame sections)
unfolding get_page_info info_found search page_at
get_page_info_lem lo frame [] a = refl
get_page_info_lem lo frame (s ∷ ss) a =
    let next = max (s.base + 1) (s.base + length s.frames) in
    elim (Bool-cases (s.base == frame)) [
      | inl same ↦
          ap (info_found (s ∷ ss) frame) (search-found frame s ss same)
          ∙ info_in_here frame s ss (ground arith) (page_at-below frame next ss (ground arith) a.1)
      | inr other ↦ elim (Bool-cases (ltb s.base frame)) [
        | inr before ↦
            ap (info_found (s ∷ ss) frame) (search-before frame s ss (ground arith))
            ∙ ap ok (sym (page_at-below frame s.base (s ∷ ss) (ground arith) (omega arith, a.1)))
        | inl after ↦
            let l : s.base < frame = ground arith in
            let rest = get_page_info_lem next frame ss a.1 in
            elim (reached frame next ss a.1) [
              | inl miss ↦ info_last frame s ss l miss rest
              | inr past ↦ elim (found_behind s ss frame (search frame ss)) [
                | inl miss ↦ info_last frame s ss l miss rest
                | inr same ↦
                    ap (info_found (s ∷ ss) frame) (search-behind frame s ss l)
                    ∙ same
                    ∙ rest
                    ∙ ap ok (sym (page_at-behind frame s ss (omega arith)))
              ]
            ]
      ]
    ]
