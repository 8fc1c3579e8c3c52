-- ===== src/Talc/Heap/Memory.antt =====
-- src/talc.rs: the memory that the heap of `TalcMeta` lies in, its links and its tags. A place is its
-- distance from `base_ptr`, which lies at the address `origin`, a multiple of eight; a word is at a
-- multiple of eight. A link, an `Option<Rel<FreeNode>>`, is two words: whether it is there, and where to.
use evering.Base.{
  ℕ, ◌+◌, ◌-◌, ◌*◌, ◌/◌, ◌%◌, ◌^◌, Bool, true, false, not, ltb, ◌==◌, if◌then◌else◌, Option, none,
  some, update,
}

pub record Heap : Type 0 where
  pub words : ℕ → ℕ
  pub summary : ℕ
  pub avails : ℕ
  pub bins : ℕ
  pub origin : ℕ

-- Rel::null
abbrev pub null : ℕ
null = 2 ^ 64 - 1

abbrev pub load : Heap → ℕ → ℕ
load h place = h.words place

abbrev pub store : ℕ → ℕ → Heap → Heap
store place value h = record h { words = update h.words place value }

unfoldable pub load_link : Heap → ℕ → Option ℕ
load_link h place = if load h place == 0 then none else some (load h (place + 8))

unfoldable pub store_link : ℕ → Option ℕ → Heap → Heap
store_link place none h = store place 0 h
store_link place (some target) h = store (place + 8) target (store place 1 h)

abbrev pub word_size : ℕ
word_size = 8

-- Addresses and sizes rounded up to, and down to, a multiple of `align`.
abbrev pub align_up : ℕ → ℕ → ℕ
align_up n align = (n + align - 1) / align * align

abbrev pub align_down : ℕ → ℕ → ℕ
align_down n align = n / align * align

-- A place rounded up so that its address is a multiple.
abbrev pub align_place : Heap → ℕ → ℕ → ℕ
align_place h place align = align_up (h.origin + place) align - h.origin

-- Tag::SIZE
abbrev pub tag_size : ℕ
tag_size = 8

abbrev pub allocated_flag : ℕ
allocated_flag = 2 ^ 0

abbrev pub is_above_free_flag : ℕ
is_above_free_flag = 2 ^ 1

-- Tag::to_base_rel: `!(IS_ABOVE_FREE_FLAG | ALLOCATED_FLAG)` keeps the rest of the word.
abbrev pub to_base_rel : ℕ → ℕ
to_base_rel tag = tag - tag % 4

abbrev pub is_allocated : ℕ → Bool
is_allocated tag = not (tag % 2 == 0)

abbrev pub is_above_free : ℕ → Bool
is_above_free tag = not (tag / 2 % 2 == 0)

-- Tag::from_acme and Tag::to_acme
abbrev pub tag_from_acme : ℕ → ℕ
tag_from_acme acme = acme - tag_size

abbrev pub tag_to_acme : ℕ → ℕ
tag_to_acme tag = tag + tag_size

-- The word of a tag: `base | flags`, both flags where the chunk above is free.
unfoldable pub tag_word : ℕ → Bool → ℕ
tag_word base above_free =
    if above_free
    then to_base_rel base + is_above_free_flag + allocated_flag
    else (if base % 2 == 0 then base + allocated_flag else base)

-- Tag::init
unfoldable pub init_tag : ℕ → ℕ → Bool → Heap → Heap
unfolding tag_word
init_tag tag base above_free h = store tag (tag_word base above_free) h

-- Tag::acme_tag: at the end of the block, where to find a tag that does not stand there.
unfoldable pub acme_tag : ℕ → ℕ → Heap → Heap
acme_tag tag acme h = if tag == acme then h else store acme tag h

-- Tag::from_alloc_base
unfoldable pub from_alloc_base : Heap → ℕ → ℕ → ℕ
from_alloc_base h place size =
    let post = align_place h (place + size) word_size in
    if ltb post (load h post) then load h post else post

-- Tag::toggle_above_free
unfoldable pub toggle_above_free : ℕ → Bool → Heap → Heap
toggle_above_free tag should_free h =
    let word = load h tag in
    store tag
      (if should_free
        then (if word / 2 % 2 == 0 then word + is_above_free_flag else word)
        else (if word / 2 % 2 == 0 then word else word - is_above_free_flag))
      h

abbrev pub set_above_free : ℕ → Heap → Heap
set_above_free tag h = toggle_above_free tag true h

abbrev pub clear_above_free : ℕ → Heap → Heap
clear_above_free tag h = toggle_above_free tag false h
