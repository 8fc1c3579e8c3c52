-- ===== src/Talc/Heap/Availability.antt =====
-- src/talc.rs: the words that say which classes have a free chunk, and their summary.
use evering.Base.{
  ℕ, zero, suc, ◌+◌, ◌-◌, ◌*◌, ◌/◌, ◌%◌, ◌^◌, Bool, not, leb, ◌==◌, if◌then◌else◌, Option, none,
  some,
}
use evering.Cells.{with_bit, without_bit}
use evering.Talc.Geometry.{Geometry, availability_words, word_bits}
use evering.Talc.Heap.Memory.{Heap, load, store}

-- bit_check
abbrev pub bit_check : ℕ → ℕ → Bool
bit_check word bit = not (word / 2 ^ bit % 2 == 0)

-- bit_flip
abbrev pub bit_flip : ℕ → ℕ → ℕ
bit_flip word bit = if word / 2 ^ bit % 2 == 0 then word + 2 ^ bit else word - 2 ^ bit

-- The place of the word of index `i`.
abbrev pub avail_place : Heap → ℕ → ℕ
avail_place h i = h.avails + 8 * i

abbrev pub avail_word : Heap → ℕ → ℕ
avail_word h i = load h (avail_place h i)

-- The summary follows a word that becomes zero or stops to be.
abbrev pub summarized : ℕ → ℕ → ℕ → ℕ → ℕ
summarized summary i word flipped =
    if flipped == 0
    then (if word == 0 then summary else without_bit summary i)
    else (if word == 0 then with_bit summary i else summary)

-- TalcMeta::toggle_avail
unfoldable pub toggle_avail : ℕ → Heap → Heap
toggle_avail idx h =
    let i = idx / word_bits in
    let word = avail_word h i in
    let flipped = bit_flip word (idx % word_bits) in
    let after = store (avail_place h i) flipped h in
    record after { summary = summarized h.summary i word flipped }

-- trailing_zeros of a word that has `left` bits
unfoldable pub trailing_from : ℕ → ℕ → ℕ
trailing_from zero word = 0
trailing_from (suc left) word = if word % 2 == 0 then trailing_from left (word / 2) + 1 else 0

unfoldable pub trailing_zeros : ℕ → ℕ
unfolding trailing_from
trailing_zeros word = trailing_from word_bits word

-- The first class of the words from `next_word` on, by the summary.
unfoldable pub by_summary : ℕ → Heap → Option ℕ
unfolding trailing_zeros
by_summary next_word h =
    let summary = h.summary / 2 ^ next_word * 2 ^ next_word in
    if summary == 0
    then none
    else (let i = trailing_zeros summary in some (i * word_bits + trailing_zeros (avail_word h i)))

-- TalcMeta::next_avail_bin_idx
unfoldable pub next_avail_bin_idx : Geometry → Heap → ℕ → Option ℕ
unfolding by_summary trailing_zeros
next_avail_bin_idx g h idx =
    let i = idx / word_bits in
    let shift_avails = avail_word h i / 2 ^ (idx % word_bits) in
    if leb g.bins idx
    then none
    else if not (shift_avails == 0)
    then some (idx + trailing_zeros shift_avails)
    else if leb (availability_words g) (i + 1)
    then none
    else by_summary (i + 1) h
