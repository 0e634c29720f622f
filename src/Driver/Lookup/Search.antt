-- ===== src/Driver/Lookup/Search.antt =====
-- cromfs.cc, `dir_lookup`: the binary search.
use cromfs.Base.{
  ℕ, zero, suc, ◌+◌, ◌-◌, ◌/◌, ◌%◌, ◌^◌, ◌≤◌, ◌<◌, ◌≡◌, refl, sym, ap, ◌∙◌, subst, arith, length,
  get_elem?, get_elem?_lt, All, All-get_elem?,
}
use cromfs.Base.{true, false, some, none, ltb, ◌==◌, Bool-cases, inl, inr}
use cromfs.Base.Bytes.{Bytes}
use cromfs.Format.{DirInfo}
use cromfs.Inode.{Inode}
use cromfs.Directory.Names.{
  Comparison, less, equal, greater, compare, find_name, IsSorted, IsSorted-less, find_name_at,
  find_name_absent, compare-equal, compare-greater, compare-less, compare-less_trans,
}
use cromfs.Directory.Layout.{directory_bytes, length-directory_bytes}
use cromfs.Directory.Places.{address}
use cromfs.Cache.{Cache}
use cromfs.Driver.{Fs, LzmaDecode, done, ◌>>=◌, return}
use cromfs.Driver.Content.{IsCoherent, moved}
use cromfs.Driver.File.{HoldsFile}
use cromfs.Driver.Lookup.{Offsets, read_pointers, read_entry, search_loop, number_or_0}
use cromfs.Driver.Lookup.Pointers.{IsTable, read_pointers_lem}
use cromfs.Driver.Lookup.Entry.{IsEntry, read_entry_lem}
use cromfs.Driver.{M}
use cromfs.Driver.Lookup.{search_round}
use cromfs.Directory.Names.{Comparison-cases}

module _ (decode : LzmaDecode) (fs : Fs) (inode : Inode) (dir : DirInfo) (name : Bytes)
    (holds : HoldsFile decode fs inode (directory_bytes dir))
    (fits : length (directory_bytes dir) < 2 ^ 32) (sorted : IsSorted dir)
    (entries : All IsEntry dir) where
  abbrev n : ℕ
  n = length dir

  abbrev next_round : (ℕ → ℕ → Offsets → M ℕ) → ℕ → ℕ → ℕ → Comparison → ℕ → Offsets → M ℕ
  next_round loop first len middle c ino o = elim c [
    | less ↦ loop first (len / 2) o
    | equal ↦ return ino
    | greater ↦ loop (middle + 1) (len - len / 2 - 1) o
  ]

  search_round_step :
      (loop : ℕ → ℕ → Offsets → M ℕ) (first len middle ino offs_this offs_next : ℕ)
      (filename : Bytes) (c : Comparison) (o o' : Offsets) (s s' s'' : Fs)
      → (first + len / 2) % 2 ^ 32 ≡ middle
      → read_pointers decode inode n middle o s ≡ done o' s'
      → get_elem? o'.entry_offsets middle ≡ some offs_this
      → get_elem? o'.entry_offsets (middle + 1) ≡ some offs_next
      → read_entry decode inode offs_this offs_next s' ≡ done (ino, filename) s''
      → compare name filename ≡ c
      → search_round decode loop inode name n first len o s
        ≡ next_round loop first len middle c ino o' s''
  search_round_step loop first len middle ino offs_this offs_next filename c o o' s s' s'' low
        pointers this that reads order =
      unfold search_round in
      rw (search_round, ◌>>=◌, low, pointers, low, this, low, that, reads, order)
        (ap (λ m. next_round loop first len m c ino o' s'') low)

  -- Names in front of a place are smaller than the one that is sought, names behind it greater.
  abbrev IsBetween : ℕ → ℕ → Type 0
  IsBetween first end =
      ((i : ℕ) (e : Bytes × ℕ) → get_elem? dir i ≡ some e → i < first → compare name e.0 ≡ greater)
      × ((i : ℕ) (e : Bytes × ℕ) → get_elem? dir i ≡ some e → end ≤ i → compare name e.0 ≡ less)

  nothing_between : (first : ℕ) → IsBetween first first → find_name name dir ≡ none
  nothing_between first (before, behind) = find_name_absent name dir (λ i e at same.
      elim (Bool-cases (ltb i first)) [
        | inl low ↦ let h = before i e at (ground arith) in absurd cc
        | inr high ↦ let h = behind i e at (ground arith) in absurd cc
      ])

  go_left :
      (first end middle : ℕ) (e : Bytes × ℕ)
      → IsBetween first end
      → get_elem? dir middle ≡ some e
      → compare name e.0 ≡ less
      → IsBetween first middle
  go_left first end middle e (before, behind) at smaller = (
    before,
    λ i e' at' h. elim (Bool-cases (i == middle)) [
      | inl same ↦
          let q : i ≡ middle = ground arith in
          let both : some e ≡ some e' = sym at ∙ (ap (get_elem? dir) (sym q) ∙ at') in
          let e_e' : ◌≡◌ {A = Bytes × ℕ} e e' = cc in
          subst (λ (x : Bytes × ℕ). compare name x.0 ≡ less) e_e' smaller
      | inr differs ↦
          compare-less_trans name e.0 e'.0 smaller
            (IsSorted-less dir middle i e e' sorted at at' (ground arith))
    ],
  )

  go_right :
      (first end middle : ℕ) (e : Bytes × ℕ)
      → IsBetween first end
      → get_elem? dir middle ≡ some e
      → compare name e.0 ≡ greater
      → IsBetween (middle + 1) end
  go_right first end middle e (before, behind) at greater_than = (
    (λ i e' at' h. elim (Bool-cases (i == middle)) [
      | inl same ↦
          let q : i ≡ middle = ground arith in
          let both : some e ≡ some e' = sym at ∙ (ap (get_elem? dir) (sym q) ∙ at') in
          let e_e' : ◌≡◌ {A = Bytes × ℕ} e e' = cc in
          subst (λ (x : Bytes × ℕ). compare name x.0 ≡ greater) e_e' greater_than
      | inr differs ↦ compare-less e'.0 name (
          compare-less_trans e'.0 e.0 name
            (IsSorted-less dir i middle e' e sorted at' at (ground arith))
            (compare-greater name e.0 greater_than))
    ]),
    behind,
  )

  abbrev Finds : ℕ → ℕ → ℕ → Offsets → Fs → Type 0
  Finds fuel first len o s =
      (cache' : Cache Bytes) × (ticks' : ℕ) × (search_loop decode fuel inode name n first len o s
        ≡ done (number_or_0 (find_name name dir)) (moved fs cache' ticks'))
      × IsCoherent decode (moved fs cache' ticks')

  ends :
      (fuel first len : ℕ) (o : Offsets) (s : Fs)
      → ltb 0 len ≡ false
      → search_loop decode fuel inode name n first len o s ≡ done 0 s
  ends zero first len o s none_left = unfold search_loop in rw (search_loop, none_left) refl
  ends (suc fuel) first len o s none_left = unfold search_loop in rw (search_loop, none_left) refl

  nothing_left :
      (fuel first len : ℕ) (o : Offsets) (cache : Cache Bytes) (ticks : ℕ)
      → ltb 0 len ≡ false
      → IsCoherent decode (moved fs cache ticks)
      → IsBetween first (first + len)
      → Finds fuel first len o (moved fs cache ticks)
  nothing_left fuel first len o cache ticks none_left coherent between =
      let same : first + len ≡ first = ground arith in
      let absent : find_name name dir ≡ none =
        nothing_between first (subst (IsBetween first) same between) in
      (
        cache,
        ticks,
        ends fuel first len o (moved fs cache ticks) none_left
            ∙ ap (λ r. done (number_or_0 r) (moved fs cache ticks)) (sym absent),
        coherent,
      )

  goes_on :
      (fuel first len : ℕ) (o : Offsets) (s : Fs)
      → ltb 0 len ≡ true
      → search_loop decode (suc fuel) inode name n first len o s
        ≡ search_round decode (search_loop decode fuel inode name n) inode name n first len o s
  goes_on fuel first len o s more = unfold search_loop in rw (search_loop, more) refl

  next_offset :
      (middle : ℕ) (o : Offsets)
      → middle < n
      → IsTable dir o
      → (middle + 1 < n → get_elem? o.offs_read (middle + 1) ≡ some true)
      → get_elem? o.entry_offsets (middle + 1) ≡ some (address dir (suc middle))
  next_offset middle o below table that =
      let same : middle + 1 ≡ suc middle = omega arith in
      elim (Bool-cases (ltb (middle + 1) n)) [
        | inl e ↦
            table.known (middle + 1) (that (ground arith)) ∙ ap (λ k. some (address dir k)) same
        | inr e ↦
            let end : n ≡ middle + 1 = ground arith in
            subst (λ k. get_elem? o.entry_offsets k ≡ some (address dir k)) end table.last
            ∙ ap (λ k. some (address dir k)) same
      ]

  -- What a round comes to: the entry in the middle, read from the directory.
  round_lem :
      (loop : ℕ → ℕ → Offsets → M ℕ) (first len : ℕ) (o : Offsets) (cache : Cache Bytes) (ticks : ℕ)
      → first + len / 2 < n
      → IsTable dir o
      → IsCoherent decode (moved fs cache ticks)
      → (cache' : Cache Bytes) × (ticks' : ℕ) × (o' : Offsets) × (e : Bytes × ℕ) × (get_elem? dir
            (first + len / 2)
          ≡ some e)
        × IsTable dir o'
        × IsCoherent decode (moved fs cache' ticks')
        × (search_round decode loop inode name n first len o (moved fs cache ticks)
            ≡ next_round loop first len
                (first + len / 2)
                (compare name e.0)
                e.1
                o'
                (moved fs cache' ticks'))
  round_lem loop first len o cache ticks below table coherent =
      let middle : ℕ = first + len / 2 in
      let (cache1, ticks1, o', pointers, coherent1, table', (this, that)) =
        read_pointers_lem decode fs inode dir holds fits middle o cache ticks below table
          coherent in
      let ((filename, ino), at) = get_elem?_lt dir middle below in
      let (cache2, ticks2, reads, coherent2) =
        read_entry_lem decode fs inode dir holds fits cache1 ticks1 middle filename ino coherent1 at
          (All-get_elem? IsEntry dir middle (filename, ino) entries at) in
      (
        cache2,
        ticks2,
        o',
        (filename, ino),
        at,
        table',
        coherent2,
        search_round_step loop first len middle ino (address dir middle) (address dir (suc middle))
            filename (compare name filename) o o' (moved fs cache ticks) (moved fs cache1 ticks1)
            (moved fs cache2 ticks2) (omega (arith, length-directory_bytes dir)) pointers
            (table'.known middle this) (next_offset middle o' below table' that) reads refl,
      )

  pub search_loop_lem :
      (fuel first len : ℕ) (o : Offsets) (cache : Cache Bytes) (ticks : ℕ)
      → len ≤ fuel
      → first + len ≤ n
      → IsTable dir o
      → IsCoherent decode (moved fs cache ticks)
      → IsBetween first (first + len)
      → Finds fuel first len o (moved fs cache ticks)
  search_loop_lem zero first len o cache ticks enough inside table coherent between =
      nothing_left zero first len o cache ticks (ground arith) coherent between
  search_loop_lem (suc fuel) first len o cache ticks enough inside table coherent between =
      let round : ltb 0 len ≡ true → Finds (suc fuel) first len o (moved fs cache ticks) = λ more.
        let some_left : 0 < len = ground arith in
        let middle : ℕ = first + len / 2 in
        let loop = search_loop decode fuel inode name n in
        let (cache', ticks', o', (filename, ino), at, table', coherent', comes_to) =
          round_lem loop first len o cache ticks (omega arith) table coherent in
        let start = goes_on fuel first len o (moved fs cache ticks) more ∙ comes_to in
        let state = moved fs cache' ticks' in
        let turn : (c : Comparison)
            → compare name filename ≡ c
            → search_loop decode (suc fuel) inode name n first len o (moved fs cache ticks)
              ≡ next_round loop first len middle c ino o' state =
          λ c order. start ∙ ap (λ x. next_round loop first len middle x ino o' state) order in
        elim (Comparison-cases (compare name filename)) [
          | inl smaller ↦
              let (cache'', ticks'', finds, coherent'') =
                search_loop_lem fuel first (len / 2) o' cache' ticks' (omega arith) (omega arith)
                  table' coherent'
                  (go_left first (first + len) middle (filename, ino) between at smaller) in
              (cache'', ticks'', turn less smaller ∙ finds, coherent'')
          | inr (inl same) ↦
              let named : find_name name dir ≡ some ino =
                ap (λ t. find_name t dir) (compare-equal name filename same)
                ∙ find_name_at dir middle filename ino sorted at in
              (
                cache',
                ticks',
                turn equal same ∙ ap (λ r. done (number_or_0 r) state) (sym named),
                coherent',
              )
          | inr (inr bigger) ↦
              let end : first + len ≡ middle + 1 + (len - len / 2 - 1) = omega arith in
              let (cache'', ticks'', finds, coherent'') =
                search_loop_lem fuel (middle + 1) (len - len / 2 - 1) o' cache' ticks' (omega arith)
                  (omega arith) table' coherent'
                  (subst (IsBetween (middle + 1)) end
                    (go_right first (first + len) middle (filename, ino) between at bigger)) in
              (cache'', ticks'', turn greater bigger ∙ finds, coherent'')
        ] in
      elim (Bool-cases (ltb 0 len)) [
        | inr e ↦ nothing_left (suc fuel) first len o cache ticks e coherent between
        | inl e ↦ round e
      ]
