-- ===== src/Driver/ReadDir/Listed.antt =====
-- cromfs.cc, `read_dir`: the entries that a call reads from the directory's file.
use mathlib.Core.List.{append-nil}
use cromfs.Base.{
  ℕ, zero, suc, ◌+◌, ◌-◌, ◌*◌, ◌%◌, ◌^◌, ◌≤◌, ◌<◌, ◌≡◌, refl, sym, ap, ap₂, ◌∙◌, arith, List, [],
  ◌∷◌, ◌++◌, length, get_elem?, set, take, drop, replicate, length-set, length-replicate, min,
}
use cromfs.Base.{length-take_le, get_elem?-append, drop-length, drop_step, get_elem?-set_self, All}
use cromfs.Base.{true, false, some, ltb, ◌==◌, ◌&&◌, if◌then◌else◌, ok, Bool, Bool-cases, inl, inr}
use cromfs.Base.Bytes.{Bytes}
use cromfs.Endian.{get_32}
use cromfs.Endian.Window.{window, get_32-window}
use cromfs.Format.{DirInfo}
use cromfs.Inode.{Inode}
use cromfs.Inode.Blocks.{block_bytes, length-block_bytes}
use cromfs.Directory.Names.{IsSorted, IsSorted-part}
use cromfs.Directory.Layout.{directory_bytes, length-directory_bytes}
use cromfs.Directory.Places.{address, address-le, address-length}
use cromfs.Cache.{Cache}
use cromfs.Driver.{Fs, LzmaDecode, done, ◌>>=◌}
use cromfs.Driver.Read.{read_file_data}
use cromfs.Driver.Content.{IsCoherent, moved}
use cromfs.Driver.File.{HoldsFile}
use cromfs.Driver.Lookup.Pointers.{read_part, pointer}
use cromfs.Driver.Lookup.Entry.{IsEntry}
use cromfs.Driver.ReadDir.{get_offsets, read_names, read_name_region, read_entries, read_portion}
use cromfs.Driver.ReadDir.Region.{places, address_grows, read_names_lem}
use cromfs.Driver.{Run}
use cromfs.Base.{length-drop}

length-places : (dir : DirInfo) (i m : ℕ) → length (places dir i m) ≡ m
length-places dir i zero = refl
length-places dir i (suc m) = ap suc (length-places dir (suc i) m)

places_last :
    (dir : DirInfo) (i m : ℕ) → places dir i (suc m) ≡ places dir i m ++ (address dir (i + m) ∷ [])
places_last dir i zero = ap (λ k. address dir k ∷ []) (let e : i ≡ i + 0 = omega arith in e)
places_last dir i (suc m) =
    let e : suc i + m ≡ i + suc m = omega arith in
    ap (λ t. address dir i ∷ t)
      (places_last dir (suc i) m ∙ ap (λ k. places dir (suc i) m ++ (address dir k ∷ [])) e)

take-places :
    (dir : DirInfo) (i m : ℕ) (xs : List ℕ) → take m (places dir i m ++ xs) ≡ places dir i m
take-places dir i zero xs = refl
take-places dir i (suc m) xs = ap (λ t. address dir i ∷ t) (take-places dir (suc i) m xs)

get_offsets_step :
    (raw : Bytes) (left n x : ℕ) (rest : List ℕ)
    → get_32 raw (4 * n) ≡ ok x
    → get_offsets raw left (n + 1) ≡ ok rest
    → get_offsets raw (suc left) n ≡ ok (x ∷ rest)
get_offsets_step raw left n x rest first others =
    unfold get_offsets in rw (get_offsets, first, others) refl

take_none : (k : ℕ) → take {A = Bytes × ℕ} k [] ≡ []
take_none zero = refl
take_none (suc k) = refl

take-min : (k : ℕ) (xs : DirInfo) → take (min (length xs) k) xs ≡ take k xs
take-min zero xs = ap (λ n. take n xs) (let e : min (length xs) 0 ≡ 0 = omega arith in e)
take-min (suc k) [] = take_none (min 0 (suc k))
take-min (suc k) (x ∷ xs) =
    let e : min (length (x ∷ xs)) (suc k) ≡ suc (min (length xs) k) = omega arith in
    ap (λ n. take n (x ∷ xs)) e ∙ ap (λ t. x ∷ t) (take-min k xs)

module _ (decode : LzmaDecode) (fs : Fs) (inode : Inode) (dir : DirInfo)
    (holds : HoldsFile decode fs inode (directory_bytes dir))
    (fits : length (directory_bytes dir) < 2 ^ 31) (sorted : IsSorted dir)
    (entries : All IsEntry dir) where
  fits_32 : length (directory_bytes dir) < 2 ^ 32
  fits_32 = omega arith

  get_offsets_lem :
      (o k left n : ℕ)
      → n + left ≤ k
      → o + k ≤ length dir
      → get_offsets (window (directory_bytes dir) (4 + o * 4) (4 * k)) left n
        ≡ ok (places dir (o + n) left)
  get_offsets_lem o k zero n inside room = unfold get_offsets in refl
  get_offsets_lem o k (suc left) n inside room =
      let next : o + (n + 1) ≡ suc (o + n) = omega arith in
      get_offsets_step (window (directory_bytes dir) (4 + o * 4) (4 * k)) left n
        (address dir (o + n)) (places dir (suc (o + n)) left)
        (get_32-window (directory_bytes dir) (4 + o * 4) (4 * k) (4 * n) (4 + 4 * (o + n))
            (omega arith) (omega arith)
          ∙ pointer decode fs inode dir holds fits_32 (o + n) (omega arith))
        (get_offsets_lem o k left (n + 1) (omega arith) room
          ∙ ap (λ i. ok (places dir i left)) next)

  region_step :
      (o m first end size n : ℕ) (offsets : List ℕ) (buf : Bytes) (result : DirInfo) (s s' : Fs)
      → get_elem? offsets 0 ≡ some first
      → get_elem? offsets m ≡ some end
      → (end + 2 ^ 32 - first) % 2 ^ 32 ≡ size
      → read_file_data decode inode first (replicate size 0) size s ≡ done (buf, n) s'
      → take m offsets ≡ places dir o m
      → read_names buf first 0 (places dir o m) [] ≡ ok result
      → read_name_region decode inode m offsets s ≡ done result s'
  region_step o m first end size n offsets buf result s s' at_0 at_m len reads addresses parses =
      unfold read_name_region in
      rw (read_name_region, ◌>>=◌, at_0, at_m, len, reads, addresses, parses) refl

  abbrev Lists : ℕ → ℕ → (Fs → Run DirInfo) → Fs → Type 0
  Lists o m run s =
      (cache' : Cache Bytes) × (ticks' : ℕ) × (run s
        ≡ done (take m (drop o dir)) (moved fs cache' ticks'))
      × IsCoherent decode (moved fs cache' ticks')

  module _ (o m : ℕ) (inside : o + suc m ≤ length dir) where
    abbrev all_places : List ℕ
    all_places = places dir o (suc m) ++ (address dir (o + suc m) ∷ [])

    last_place : get_elem? all_places (suc m) ≡ some (address dir (o + suc m))
    last_place =
        let e : suc m ≡ length (places dir o (suc m)) + 0 =
          omega (arith, length-places dir o (suc m)) in
        ap (get_elem? all_places) e
        ∙ get_elem?-append (places dir o (suc m)) (address dir (o + suc m) ∷ []) 0

    region_lem :
        (cache : Cache Bytes) (ticks : ℕ)
        → IsCoherent decode (moved fs cache ticks)
        → Lists o (suc m) (read_name_region decode inode (suc m) all_places) (moved fs cache ticks)
    region_lem cache ticks coherent =
        let grows = address_grows dir o (suc m) inside in
        let last = address-le dir (o + suc m) in
        let size : ℕ = address dir (o + suc m) - address dir o in
        let (cache', ticks', reads, coherent') =
          read_part decode fs inode dir holds fits_32 cache ticks (address dir o) size
            (replicate size 0) coherent (omega arith) (length-replicate size 0) in
        (
          cache',
          ticks',
          region_step o (suc m) (address dir o) (address dir (o + suc m)) size size all_places
              (window (directory_bytes dir) (address dir o) size) (take (suc m) (drop o dir))
              (moved fs cache ticks) (moved fs cache' ticks') refl last_place (omega arith) reads
              (take-places dir o (suc m) (address dir (o + suc m) ∷ []))
              (read_names_lem dir fits entries (address dir o) size 0 o (suc m) [] (omega arith)
                (omega arith) (omega arith) inside (omega arith)
                (IsSorted-part dir o (suc m) sorted)),
          coherent',
        )

  module _ (o m : ℕ) (inside : o + m ≤ length dir) where
    zeros : List ℕ
    zeros = replicate (m + 1) 0

    start : Bool → List ℕ
    start at_end = if at_end then set zeros m (inode.bytesize % 2 ^ 32) else zeros

    number : Bool → ℕ
    number at_end = if at_end then m else m + 1

    read_entries_step :
        (at_end : Bool) (offset size n : ℕ) (raw : Bytes) (offsets : List ℕ) (result : DirInfo)
        (s s' s'' : Fs)
        → ((o + m) == length dir) ≡ at_end
        → (m + 1) % 2 ^ 32 ≡ m + 1
        → (4 + o * 4) % 2 ^ 64 ≡ offset
        → 4 * number at_end % 2 ^ 32 ≡ size
        → read_file_data decode inode offset
            (block_bytes 4 (take (number at_end) (start at_end)))
            size
            s
          ≡ done (raw, n) s'
        → get_offsets raw (number at_end) 0 ≡ ok offsets
        → read_name_region decode inode m (offsets ++ drop (number at_end) (start at_end)) s'
          ≡ done result s''
        → read_entries decode inode (length dir) o m s ≡ done result s''
    unfolding number start zeros
    read_entries_step at_end offset size n raw offsets result s s' s'' end low place len reads
          decodes region =
        unfold read_entries in
        rw (read_entries, ◌>>=◌, end, low, place, len, reads, end, decodes, end, low, region) refl

    length-start : (at_end : Bool) → length (start at_end) ≡ m + 1
    unfolding start zeros
    length-start true =
        length-set (replicate (m + 1) 0) m (inode.bytesize % 2 ^ 32)
        ∙ length-replicate {A = ℕ} (m + 1) 0
    length-start false = length-replicate {A = ℕ} (m + 1) 0

    -- The addresses with what stays in the vector behind them.
    joined :
        (at_end : Bool)
        → ((o + m) == length dir) ≡ at_end
        → places dir o (number at_end) ++ drop (number at_end) (start at_end)
          ≡ places dir o m ++ (address dir (o + m) ∷ [])
    unfolding number start zeros
    joined true end =
        let all : o + m ≡ length dir = ground arith in
        let size : inode.bytesize % 2 ^ 32 ≡ address dir (o + m) =
          omega (arith, holds.bytesize, address-length dir, ap (address dir) all) in
        let vector : List ℕ = set (replicate (m + 1) 0) m (inode.bytesize % 2 ^ 32) in
        let len : length vector ≡ m + 1 = length-start true in
        let none_behind : drop (suc m) vector ≡ [] = drop-length (suc m) vector (omega arith) in
        ap (λ t. places dir o m ++ t)
          (drop_step vector m (inode.bytesize % 2 ^ 32) (
              get_elem?-set_self (replicate (m + 1) 0) m (inode.bytesize % 2 ^ 32)
                (omega (arith, length-replicate {A = ℕ} (m + 1) 0)))
            ∙ ap₂ (λ x t. x ∷ t) size none_behind)
    joined false end =
        let suc_m : m + 1 ≡ suc m = omega arith in
        ap (λ t. places dir o (m + 1) ++ t)
          (drop-length (m + 1) (replicate (m + 1) 0)
            (omega (arith, length-replicate {A = ℕ} (m + 1) 0)))
        ∙ (append-nil (places dir o (m + 1)) ∙ (ap (places dir o) suc_m ∙ places_last dir o m))

    number_bound :
        (at_end : Bool)
        → ((o + m) == length dir) ≡ at_end
        → (o + number at_end ≤ length dir) × (number at_end ≤ m + 1)
    unfolding number
    number_bound true end = (omega arith, omega arith)
    number_bound false end = (ground arith, omega arith)

  read_entries_lem :
      (o m : ℕ) (cache : Cache Bytes) (ticks : ℕ)
      → o + suc m ≤ length dir
      → IsCoherent decode (moved fs cache ticks)
      → Lists o (suc m) (read_entries decode inode (length dir) o (suc m)) (moved fs cache ticks)
  read_entries_lem o m cache ticks inside coherent =
      let at_end : Bool = (o + suc m) == length dir in
      let k : ℕ = number o (suc m) inside at_end in
      let vector : List ℕ = start o (suc m) inside at_end in
      let (bound, most) = number_bound o (suc m) inside at_end refl in
      let total = length-directory_bytes dir in
      let (cache1, ticks1, reads, coherent1) =
        read_part decode fs inode dir holds fits_32 cache ticks (4 + o * 4) (4 * k)
          (block_bytes 4 (take k vector)) coherent (omega arith)
          (length-block_bytes 4 (take k vector)
            ∙ ap (λ n. 4 * n)
                (length-take_le k vector (omega (arith, length-start o (suc m) inside at_end)))) in
      let (cache2, ticks2, region, coherent2) = region_lem o m inside cache1 ticks1 coherent1 in
      let o_0 : o + 0 ≡ o = omega arith in
      let whole = joined o (suc m) inside at_end refl in
      (
        cache2,
        ticks2,
        read_entries_step o (suc m) inside at_end (4 + o * 4) (4 * k) (4 * k)
            (window (directory_bytes dir) (4 + o * 4) (4 * k)) (places dir o k)
            (take (suc m) (drop o dir)) (moved fs cache ticks) (moved fs cache1 ticks1)
            (moved fs cache2 ticks2) refl (omega arith) (omega arith) (omega arith) reads
            (get_offsets_lem o k k 0 (omega arith) bound ∙ ap (λ i. ok (places dir i k)) o_0)
            (ap (λ t. read_name_region decode inode (suc m) t (moved fs cache1 ticks1)) whole
              ∙ region),
        coherent2,
      )

  portion_step :
      (o count m : ℕ) (result : DirInfo) (s s' : Fs)
      → min (length dir - o) count % 2 ^ 32 ≡ suc m
      → ltb o (length dir) ≡ true
      → read_entries decode inode (length dir) o (suc m) s ≡ done result s'
      → read_portion decode inode (length dir) o count s ≡ done result s'
  portion_step o count m result s s' some_left inside reads =
      let more : ltb 0 (suc m) ≡ true = ground arith in
      unfold read_portion in rw (read_portion, some_left, inside, more) reads

  no_portion :
      (o count : ℕ) (s : Fs)
      → ltb o (length dir) && ltb 0 (min (length dir - o) count % 2 ^ 32) ≡ false
      → read_portion decode inode (length dir) o count s ≡ done [] s
  no_portion o count s nothing = unfold read_portion in rw (read_portion, nothing) refl

  nothing_to_take :
      (o count : ℕ)
      → ltb o (length dir) && ltb 0 (min (length dir - o) count % 2 ^ 32) ≡ false
      → take count (drop o dir) ≡ []
  nothing_to_take o zero nothing = refl
  nothing_to_take o (suc count) nothing =
      let all : length dir ≤ o = ground (arith, length-directory_bytes dir) in
      ap (take (suc count)) (drop-length o dir all) ∙ take_none (suc count)

  -- The part of the directory from `o` on, at most `count` entries.
  pub read_portion_lem :
      (o count : ℕ) (cache : Cache Bytes) (ticks : ℕ)
      → IsCoherent decode (moved fs cache ticks)
      → Lists o count (read_portion decode inode (length dir) o count) (moved fs cache ticks)
  read_portion_lem o count cache ticks coherent =
      let total = length-directory_bytes dir in
      let guard : Bool = ltb o (length dir) && ltb 0 (min (length dir - o) count % 2 ^ 32) in
      elim (Bool-cases guard) [
        | inr e ↦ (
          cache,
          ticks,
          no_portion o count (moved fs cache ticks) e
              ∙ ap (λ d. done d (moved fs cache ticks)) (sym (nothing_to_take o count e)),
          coherent,
        )
        | inl e ↦
            let below : o < length dir = ground arith in
            let m : ℕ = min (length dir - o) count - 1 in
            let some_left : min (length dir - o) count % 2 ^ 32 ≡ suc m = ground arith in
            let least : suc m ≡ min (length (drop o dir)) count =
              ground (arith, length-drop o dir) in
            let (cache', ticks', reads, coherent') =
              read_entries_lem o m cache ticks (omega arith) coherent in
            (
              cache',
              ticks',
              portion_step o count m (take (suc m) (drop o dir)) (moved fs cache ticks)
                    (moved fs cache' ticks') some_left (ground arith) reads
                  ∙ ap (λ d. done d (moved fs cache' ticks'))
                      (ap (λ n. take n (drop o dir)) least ∙ take-min count (drop o dir)),
              coherent',
            )
      ]
