-- ===== src/Driver/Lookup/Pointers.antt =====
-- cromfs.cc, `dir_lookup`: the addresses that a round of the search reads.
use cromfs.Base.{
  ℕ, ◌+◌, ◌-◌, ◌*◌, ◌/◌, ◌%◌, ◌^◌, ◌≤◌, ◌<◌, ◌≡◌, refl, sym, ap, ◌∙◌, arith, List, length,
  get_elem?, set, take, drop, length-set, length-drop, length-take_le, get_elem?_lt,
}
use cromfs.Base.{
  true, false, some, ltb, ◌==◌, ◌||◌, if◌then◌else◌, ok, or_fault, Bool, Bool-cases, inl, inr,
}
use cromfs.Base.Access.{get_elem?-set}
use cromfs.Base.Bytes.{Bytes}
use cromfs.Endian.{get_32}
use cromfs.Endian.Window.{window, get_32-window}
use cromfs.Format.{DirInfo}
use cromfs.Inode.{Inode}
use cromfs.Inode.Blocks.{block_bytes, length-block_bytes}
use cromfs.Directory.Layout.{directory_bytes, length-directory_bytes}
use cromfs.Directory.Places.{address, get_32-address}
use cromfs.Cache.{Cache}
use cromfs.Driver.{Fs, LzmaDecode, done, ◌>>=◌, return}
use cromfs.Driver.Read.{read_file_data}
use cromfs.Driver.Content.{IsCoherent, moved}
use cromfs.Driver.File.{HoldsFile, HoldsFile-moved, read_within}
use cromfs.Driver.Lookup.{Offsets, store_pointer, load_pointers, read_pointers}

-- Every address that is marked as read is right, and so is the end of the last entry.
pub record IsTable (dir : DirInfo) (o : Offsets) : Type 0 where
  pub n_offsets : length o.entry_offsets ≡ length dir + 1
  pub n_read : length o.offs_read ≡ length dir
  pub known :
      (i : ℕ)
      → get_elem? o.offs_read i ≡ some true
      → get_elem? o.entry_offsets i ≡ some (address dir i)
  pub last : get_elem? o.entry_offsets (length dir) ≡ some (address dir (length dir))

-- `o'` has the address number `i`, and all that `o` has.
abbrev HasMore : Offsets → ℕ → Offsets → Type 0
HasMore o i o' =
    (get_elem? o'.offs_read i ≡ some true)
    × ((j : ℕ) → get_elem? o.offs_read j ≡ some true → get_elem? o'.offs_read j ≡ some true)

stored : ℕ → ℕ → Offsets → Offsets
stored i x o = record {
  entry_offsets = set o.entry_offsets i x;
  offs_read = set o.offs_read i true;
}

store_pointer_lem :
    (dir : DirInfo) (raw : Bytes) (at i : ℕ) (o : Offsets)
    → i < length dir
    → get_32 raw at ≡ ok (address dir i)
    → IsTable dir o
    → (o' : Offsets) × (store_pointer raw at i o ≡ ok o') × IsTable dir o' × HasMore o i o'
unfolding stored
store_pointer_lem dir raw at i o h reads table =
    let (old, there) = get_elem?_lt o.offs_read i (omega (arith, table.n_read)) in
    let flag : (j : ℕ)
        → get_elem? (set o.offs_read i true) j
          ≡ (if i == j then some true else get_elem? o.offs_read j) =
      λ j. get_elem?-set o.offs_read i j true (omega (arith, table.n_read)) in
    let offset : (j : ℕ)
        → get_elem? (set o.entry_offsets i (address dir i)) j
          ≡ (if i == j then some (address dir i) else get_elem? o.entry_offsets j) =
      λ j. get_elem?-set o.entry_offsets i j (address dir i) (omega (arith, table.n_offsets)) in
    (
      stored i (address dir i) o,
      (unfold store_pointer in rw (store_pointer, there, reads) refl),
      record {
        n_offsets = length-set o.entry_offsets i (address dir i) ∙ table.n_offsets;
        n_read = length-set o.offs_read i true ∙ table.n_read;
        known = λ j read. elim (Bool-cases (i == j)) [
          | inl e ↦
              let same : i ≡ j = ground arith in
              offset j ∙ rw e (ap (λ k. some (address dir k)) same)
          | inr e ↦
              let before : get_elem? o.offs_read j ≡ some true = sym (flag j ∙ rw e refl) ∙ read in
              offset j ∙ rw e (table.known j before)
        ];
        last =
            let e : (i == length dir) ≡ false = ground arith in
            offset (length dir) ∙ rw e table.last;
      },
      (
        flag i ∙ (let e : (i == i) ≡ true = ground arith in rw e refl),
        λ j read. flag j ∙ elim (Bool-cases (i == j)) [ inl e ↦ rw e refl | inr e ↦ rw e read ],
      ),
    )

-- What the search has after it has read the addresses of an entry.
abbrev pub HasBoth : DirInfo → ℕ → Offsets → Type 0
HasBoth dir middle o =
    (get_elem? o.offs_read middle ≡ some true)
    × (middle + 1 < length dir → get_elem? o.offs_read (middle + 1) ≡ some true)

module _ (decode : LzmaDecode) (fs : Fs) (inode : Inode) (dir : DirInfo)
    (holds : HoldsFile decode fs inode (directory_bytes dir))
    (fits : length (directory_bytes dir) < 2 ^ 32) where
  -- A read of a part of the directory.
  pub read_part :
      (cache : Cache Bytes) (ticks offset size : ℕ) (target : Bytes)
      → IsCoherent decode (moved fs cache ticks)
      → offset + size ≤ length (directory_bytes dir)
      → length target ≡ size
      → (cache' : Cache Bytes) × (ticks' : ℕ) × (read_file_data decode inode offset target size
            (moved fs cache ticks)
          ≡ done (window (directory_bytes dir) offset size, size) (moved fs cache' ticks'))
        × IsCoherent decode (moved fs cache' ticks')
  read_part cache ticks offset size target coherent inside len =
      read_within decode (moved fs cache ticks) inode (directory_bytes dir) offset size target
        (HoldsFile-moved decode fs inode (directory_bytes dir) cache ticks holds) coherent
        (omega (arith, length-directory_bytes dir)) (omega arith) inside len

  pub pointer :
      (i : ℕ) → i < length dir → get_32 (directory_bytes dir) (4 + 4 * i) ≡ ok (address dir i)
  pointer i h =
      let ((name, ino), at) = get_elem?_lt dir i h in get_32-address dir i name ino fits at

  module _ (middle : ℕ) (o : Offsets) (cache : Cache Bytes) (ticks : ℕ)
      (below : middle < length dir) (table : IsTable dir o)
      (coherent : IsCoherent decode (moved fs cache ticks)) where
    old : ℕ → ℕ → Bytes
    old read_offs n_read =
        block_bytes 4 (take (n_read / 4) (drop (middle + read_offs / 4) o.entry_offsets))

    load_pointers_step :
        (read_offs n_read offset n : ℕ) (raw : Bytes) (fs' : Fs) (o1 o2 : Offsets)
        → (4 + read_offs + middle * 4) % 2 ^ 32 ≡ offset
        → read_file_data decode inode offset (old read_offs n_read) n_read (moved fs cache ticks)
          ≡ done (raw, n) fs'
        → (if read_offs == 0 then store_pointer raw 0 middle o else ok o) ≡ ok o1
        → (if (n_read == 8) || (read_offs == 4)
            then store_pointer raw (4 - read_offs) (middle + 1) o1
            else ok o1)
          ≡ ok o2
        → load_pointers decode inode middle read_offs n_read o (moved fs cache ticks) ≡ done o2 fs'
    unfolding old
    load_pointers_step read_offs n_read offset n raw fs' o1 o2 place reads first second =
        unfold load_pointers in rw (load_pointers, ◌>>=◌, place, reads, first, second)

    abbrev Loads : ℕ → ℕ → Type 0
    Loads read_offs n_read =
        (cache' : Cache Bytes) × (ticks' : ℕ) × (o' : Offsets) × (load_pointers decode inode middle
            read_offs n_read o (moved fs cache ticks)
          ≡ done o' (moved fs cache' ticks'))
        × IsCoherent decode (moved fs cache' ticks')
        × IsTable dir o'
        × HasBoth dir middle o'

    -- The read of one address or two.
    part :
        (read_offs n_read : ℕ)
        → 4 + read_offs + middle * 4 + n_read ≤ 4 + 4 * length dir
        → n_read ≡ 4 * (n_read / 4)
        → read_offs ≡ 4 * (read_offs / 4)
        → (cache' : Cache Bytes) × (ticks' : ℕ) × (read_file_data decode inode
              (4 + read_offs + middle * 4)
              (old read_offs n_read)
              n_read
              (moved fs cache ticks)
            ≡ done
                (window (directory_bytes dir) (4 + read_offs + middle * 4) n_read, n_read)
                (moved fs cache' ticks'))
          × IsCoherent decode (moved fs cache' ticks')
    unfolding old
    part read_offs n_read inside whole even =
        let from : List ℕ = drop (middle + read_offs / 4) o.entry_offsets in
        let room : n_read / 4 ≤ length from =
          omega (arith, table.n_offsets, length-drop (middle + read_offs / 4) o.entry_offsets) in
        read_part cache ticks (4 + read_offs + middle * 4) n_read (old read_offs n_read) coherent
          (omega (arith, length-directory_bytes dir))
          (length-block_bytes 4 (take (n_read / 4) from)
            ∙ omega (arith, length-take_le (n_read / 4) from room))

    -- A pointer in what the read returned.
    in_part :
        (read_offs n_read at i : ℕ)
        → i < length dir
        → at + 4 ≤ n_read
        → 4 + 4 * i ≡ 4 + read_offs + middle * 4 + at
        → get_32 (window (directory_bytes dir) (4 + read_offs + middle * 4) n_read) at
          ≡ ok (address dir i)
    in_part read_offs n_read at i h inside place =
        get_32-window (directory_bytes dir) (4 + read_offs + middle * 4) n_read at (4 + 4 * i)
          inside place
        ∙ pointer i h

    load_this :
        (middle + 1 < length dir → get_elem? o.offs_read (middle + 1) ≡ some true) → Loads 0 4
    load_this next =
        let (cache', ticks', reads, coherent') =
          part 0 4 (omega arith) (omega arith) (omega arith) in
        let raw = window (directory_bytes dir) (4 + 0 + middle * 4) 4 in
        let (o', stores, table', (this, more)) =
          store_pointer_lem dir raw 0 middle o below
            (in_part 0 4 0 middle below (omega arith) (omega arith)) table in
        (
          cache',
          ticks',
          o',
          load_pointers_step 0 4 (4 + 0 + middle * 4) 4 raw (moved fs cache' ticks') o' o'
              (omega (arith, length-directory_bytes dir)) reads stores refl,
          coherent',
          table',
          (this, λ h. more (middle + 1) (next h)),
        )

    load_both : middle + 1 < length dir → Loads 0 8
    load_both next =
        let (cache', ticks', reads, coherent') =
          part 0 8 (omega arith) (omega arith) (omega arith) in
        let raw = window (directory_bytes dir) (4 + 0 + middle * 4) 8 in
        let (o1, stores, table1, (this, more)) =
          store_pointer_lem dir raw 0 middle o below
            (in_part 0 8 0 middle below (omega arith) (omega arith)) table in
        let (o2, stores', table2, (that, more')) =
          store_pointer_lem dir raw 4 (middle + 1) o1 next
            (in_part 0 8 4 (middle + 1) next (omega arith) (omega arith)) table1 in
        (
          cache',
          ticks',
          o2,
          load_pointers_step 0 8 (4 + 0 + middle * 4) 8 raw (moved fs cache' ticks') o1 o2
              (omega (arith, length-directory_bytes dir)) reads stores stores',
          coherent',
          table2,
          (more' middle this, λ h. that),
        )

    load_next : middle + 1 < length dir → get_elem? o.offs_read middle ≡ some true → Loads 4 4
    load_next next this =
        let (cache', ticks', reads, coherent') =
          part 4 4 (omega arith) (omega arith) (omega arith) in
        let raw = window (directory_bytes dir) (4 + 4 + middle * 4) 4 in
        let (o', stores, table', (that, more)) =
          store_pointer_lem dir raw 0 (middle + 1) o next
            (in_part 4 4 0 (middle + 1) next (omega arith) (omega arith)) table in
        (
          cache',
          ticks',
          o',
          load_pointers_step 4 4 (4 + 4 + middle * 4) 4 raw (moved fs cache' ticks') o o'
              (omega (arith, length-directory_bytes dir)) reads refl stores,
          coherent',
          table',
          (more middle this, λ h. that),
        )

    read_pointers_step :
        (has_this has_next : Bool) (result : Offsets) (fs' : Fs)
        → get_elem? o.offs_read middle ≡ some has_this
        → (if ltb (middle + 1) (length dir)
            then or_fault (get_elem? o.offs_read (middle + 1))
            else ok true)
          ≡ ok has_next
        → (if ((if has_this then 0 else 4) + (if has_next then 0 else 4)) == 0
              then return o
              else load_pointers decode inode middle
                  (if has_this then 4 else 0)
                  ((if has_this then 0 else 4) + (if has_next then 0 else 4))
                  o)
            (moved fs cache ticks)
          ≡ done result fs'
        → read_pointers decode inode (length dir) middle o (moved fs cache ticks) ≡ done result fs'
    read_pointers_step has_this has_next result fs' this that loads =
        unfold read_pointers in rw (read_pointers, ◌>>=◌, this, that) loads

    abbrev Reads : Type 0
    Reads =
        (cache' : Cache Bytes) × (ticks' : ℕ) × (o' : Offsets) × (read_pointers decode inode
            (length dir) middle o (moved fs cache ticks)
          ≡ done o' (moved fs cache' ticks'))
        × IsCoherent decode (moved fs cache' ticks')
        × IsTable dir o'
        × HasBoth dir middle o'

    read_pointers_cases :
        (has_this has_next : Bool)
        → get_elem? o.offs_read middle ≡ some has_this
        → (if ltb (middle + 1) (length dir)
            then or_fault (get_elem? o.offs_read (middle + 1))
            else ok true)
          ≡ ok has_next
        → (has_next ≡ false → middle + 1 < length dir)
        → (has_next ≡ true
            → middle + 1 < length dir
            → get_elem? o.offs_read (middle + 1) ≡ some true)
        → Reads
    read_pointers_cases true true this that needed known = (
      cache,
      ticks,
      o,
      read_pointers_step true true o (moved fs cache ticks) this that refl,
      coherent,
      table,
      (this, known refl),
    )
    read_pointers_cases true false this that needed known =
        let (cache', ticks', o', loads, coherent', table', both) = load_next (needed refl) this in
        (
          cache',
          ticks',
          o',
          read_pointers_step true false o' (moved fs cache' ticks') this that loads,
          coherent',
          table',
          both,
        )
    read_pointers_cases false true this that needed known =
        let (cache', ticks', o', loads, coherent', table', both) = load_this (known refl) in
        (
          cache',
          ticks',
          o',
          read_pointers_step false true o' (moved fs cache' ticks') this that loads,
          coherent',
          table',
          both,
        )
    read_pointers_cases false false this that needed known =
        let (cache', ticks', o', loads, coherent', table', both) = load_both (needed refl) in
        (
          cache',
          ticks',
          o',
          read_pointers_step false false o' (moved fs cache' ticks') this that loads,
          coherent',
          table',
          both,
        )

    -- The search reads the addresses of an entry and of the next one, if it does not have them.
    pub read_pointers_lem : Reads
    read_pointers_lem =
        let (has_this, this) = get_elem?_lt o.offs_read middle (omega (arith, table.n_read)) in
        elim (Bool-cases (ltb (middle + 1) (length dir))) [
          | inl e ↦
              let next : middle + 1 < length dir = ground arith in
              let (has_next, there) =
                get_elem?_lt o.offs_read (middle + 1) (omega (arith, table.n_read)) in
              read_pointers_cases has_this has_next this (rw (e, there) refl) (λ _. next)
                (λ read h. there ∙ ap some read)
          | inr e ↦
              read_pointers_cases has_this true this (rw e refl) (λ wrong. absurd cc)
                (λ _ h. absurd (ground arith))
        ]
