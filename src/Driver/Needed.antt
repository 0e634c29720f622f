-- ===== src/Driver/Needed.antt =====
-- The first loop of `read_file_data`: the list of the fblocks that a read needs, and its bit set.
use cromfs.Base.{ℕ, ◌+◌, ◌-◌, ◌/◌, ◌%◌, ◌^◌, ◌<◌, ◌≡◌, refl, sym, ap, ◌∙◌, bit_and, bit_or, arith}
use cromfs.Base.{
  List, [], ◌∷◌, ◌++◌, none, some, get_elem?, set, length, length-set, ok, Bool-cases, inl, inr,
  get_elem?_lt,
}
use cromfs.Base.{Bool, true, false, ◌==◌, if◌then◌else◌, lt→ltb}
use cromfs.Base.Access.{get_elem?-set}
use cromfs.Base.BitSet.{digit, digit_le, digit-bit_or, bit_and_test}
use cromfs.Cache
use cromfs.Driver.{Fs}
use cromfs.Driver.Read.{add_required, Required, require, shift_1u, bitset_bitness}
use cromfs.Base.{ap₂, subst}
use cromfs.Base.{==_refl}

-- How often `n` stands in a list.
unfoldable pub occurs : ℕ → List ℕ → ℕ
occurs n [] = 0
occurs n (a ∷ xs) = (if n == a then 1 else 0) + occurs n xs

pub occurs-append : (n : ℕ) (xs ys : List ℕ) → occurs n (xs ++ ys) ≡ occurs n xs + occurs n ys
unfolding occurs
occurs-append n [] ys = omega arith
occurs-append n (a ∷ xs) ys = omega (arith, occurs-append n xs ys)

abbrev pub all_needed : Required → List ℕ
all_needed req = req.cached ++ req.uncached

-- The bit of fblock `n` in the bit set.
unfoldable pub bit_of : List ℕ → ℕ → ℕ
bit_of bits n = elim (get_elem? bits (n / 64)) [ none ↦ 0 | some word ↦ digit (n % 64) word ]

bit_of-some :
    (bits : List ℕ) (n word : ℕ)
    → get_elem? bits (n / 64) ≡ some word
    → bit_of bits n ≡ digit (n % 64) word
bit_of-some bits n word at = unfold bit_of in rw (bit_of, at)

module _ (fs : Fs) where
  -- The bit set has room for every fblock, and tells which fblocks are listed, each once.
  abbrev pub IsTracked : Required → Type 0
  IsTracked req =
      (length req.bits ≡ (length fs.fblktab + bitset_bitness - 1) / bitset_bitness)
      × ((n : ℕ)
          → n < length fs.fblktab
          → n % 64 < 32
          → occurs n (all_needed req) ≡ bit_of req.bits n)

  bit_of-set :
      (bits : List ℕ) (n f word : ℕ)
      → get_elem? bits (f / 64) ≡ some word
      → f / 64 < length bits
      → bit_of (set bits (f / 64) (bit_or word (2 ^ (f % 64)))) n
        ≡ (if n == f then 1 else bit_of bits n)
  unfolding bit_of
  bit_of-set bits n f word at room = elim (Bool-cases (f / 64 == n / 64)) [
    | inl same ↦
        let g : get_elem? bits (n / 64) ≡ some word =
          subst (λ q. get_elem? bits q ≡ some word) (ground arith) at in
        let g' : get_elem? (set bits (f / 64) (bit_or word (2 ^ (f % 64)))) (n / 64)
            ≡ some (bit_or word (2 ^ (f % 64))) =
          get_elem?-set bits (f / 64) (n / 64) (bit_or word (2 ^ (f % 64))) room ∙ rw same refl in
        let test : (n % 64 == f % 64) ≡ (n == f) = ground arith in
        bit_of-some (set bits (f / 64) (bit_or word (2 ^ (f % 64)))) n (bit_or word (2 ^ (f % 64)))
          g'
        ∙ (digit-bit_or (n % 64) (f % 64) word
            ∙ ap₂ (λ (b : Bool) (d : ℕ). if b then 1 else d) test (sym (bit_of-some bits n word g)))
    | inr other ↦
        let g : get_elem? (set bits (f / 64) (bit_or word (2 ^ (f % 64)))) (n / 64)
            ≡ get_elem? bits (n / 64) =
          get_elem?-set bits (f / 64) (n / 64) (bit_or word (2 ^ (f % 64))) room ∙ rw other refl in
        let test : (n == f) ≡ false = ground arith in rw (bit_of, g, test) refl
  ]

  occurs-add_required :
      (n f : ℕ) (req : Required) (bits : List ℕ)
      → occurs n (all_needed (add_required fs f bits req))
        ≡ occurs n (all_needed req) + (if n == f then 1 else 0)
  unfolding add_required occurs
  occurs-add_required n f req bits = elim (Bool-cases (Cache.has f fs.fblock_cache)) [
    | inl hit ↦
        rw (add_required, hit)
          (omega (
            arith,
            occurs-append n (req.cached ++ (f ∷ [])) req.uncached,
            occurs-append n req.cached (f ∷ []),
            occurs-append n req.cached req.uncached,
          ))
    | inr miss ↦
        rw (add_required, miss)
          (omega (
            arith,
            occurs-append n req.cached (req.uncached ++ (f ∷ [])),
            occurs-append n req.uncached (f ∷ []),
            occurs-append n req.cached req.uncached,
          ))
  ]

  require_old :
      (f word : ℕ) (req : Required)
      → f < length fs.fblktab
      → f % 64 < 32
      → get_elem? req.bits (f / 64) ≡ some word
      → (digit (f % 64) word == 0) ≡ false
      → require fs f req ≡ ok req
  require_old f word req known low at listed =
      let bit : (bit_and word (2 ^ (f % 64)) == 0) ≡ false = bit_and_test (f % 64) word ∙ listed in
      unfold require shift_1u in
      rw (require, lt→ltb f (length fs.fblktab) known, shift_1u, lt→ltb (f % 64) 32 low, at, bit)

  require_new :
      (f word : ℕ) (req : Required)
      → f < length fs.fblktab
      → f % 64 < 32
      → get_elem? req.bits (f / 64) ≡ some word
      → (digit (f % 64) word == 0) ≡ true
      → require fs f req
        ≡ ok (add_required fs f (set req.bits (f / 64) (bit_or word (2 ^ (f % 64)))) req)
  require_new f word req known low at fresh =
      let bit : (bit_and word (2 ^ (f % 64)) == 0) ≡ true = bit_and_test (f % 64) word ∙ fresh in
      unfold require shift_1u in
      rw (require, lt→ltb f (length fs.fblktab) known, shift_1u, lt→ltb (f % 64) 32 low, at, bit)

  bits-add_required :
      (f : ℕ) (bits : List ℕ) (req : Required) → (add_required fs f bits req).bits ≡ bits
  unfolding add_required
  bits-add_required f bits req = elim (Bool-cases (Cache.has f fs.fblock_cache)) [
    | inl hit ↦ rw (add_required, hit) refl
    | inr miss ↦ rw (add_required, miss) refl
  ]

  -- Every fblock that was listed once still is.
  abbrev pub Keeps : Required → Required → Type 0
  Keeps req req' = (n : ℕ) → occurs n (all_needed req) ≡ 1 → occurs n (all_needed req') ≡ 1

  pub require_lists :
      (f : ℕ) (req : Required)
      → IsTracked req
      → f < length fs.fblktab
      → f % 64 < 32
      → (req' : Required) × (require fs f req ≡ ok req')
        × IsTracked req'
        × (occurs f (all_needed req') ≡ 1)
        × Keeps req req'
  require_lists f req (len, tracks) known low =
      let room : f / 64 < length req.bits = omega arith in
      let (word, at) = get_elem?_lt req.bits (f / 64) room in
      let bits' : List ℕ = set req.bits (f / 64) (bit_or word (2 ^ (f % 64))) in
      let small = digit_le (f % 64) word in
      let at_f : occurs f (all_needed req) ≡ digit (f % 64) word =
        tracks f known low ∙ bit_of-some req.bits f word at in
      elim (Bool-cases (digit (f % 64) word == 0)) [
        | inr listed ↦ (
          req,
          require_old f word req known low at listed,
          (len, tracks),
          ground arith,
          λ n once. once,
        )
        | inl fresh ↦
            let req' : Required = add_required fs f bits' req in
            let here : occurs f (all_needed req) ≡ 0 = ground arith in
            let still : (n : ℕ)
                → n < length fs.fblktab
                → n % 64 < 32
                → occurs n (all_needed req) + (if n == f then 1 else 0) ≡ bit_of bits' n =
              λ n n_known n_low. elim (Bool-cases (n == f)) [
                | inl e ↦
                    let at_n : occurs n (all_needed req) ≡ occurs f (all_needed req) =
                      ap (λ m. occurs m (all_needed req)) (ground arith) in
                    rw (e) (
                      omega (
                        arith,
                        bit_of-set req.bits n f word at room,
                        ap {B = ℕ} (λ (b : Bool). if b then 1 else bit_of req.bits n) e,
                      ))
                | inr e ↦ rw (e) (
                    omega (
                      arith,
                      tracks n n_known n_low,
                      bit_of-set req.bits n f word at room,
                      ap {B = ℕ} (λ (b : Bool). if b then 1 else bit_of req.bits n) e,
                    ))
              ] in
            let kept : Keeps req req' = λ n once. elim (Bool-cases (n == f)) [
              | inl e ↦
                  let at_n : occurs n (all_needed req) ≡ occurs f (all_needed req) =
                    ap (λ m. occurs m (all_needed req)) (ground arith) in
                  absurd (omega arith)
              | inr e ↦ omega (
                arith,
                occurs-add_required n f req bits',
                ap {B = ℕ} (λ (b : Bool). if b then 1 else 0) e,
              )
            ] in
            let same : req'.bits ≡ bits' = bits-add_required f bits' req in
            let len' : length req'.bits ≡ length req.bits =
              ap (λ (xs : List ℕ). length xs) same
              ∙ length-set req.bits (f / 64) (bit_or word (2 ^ (f % 64))) in
            (
              req',
              require_new f word req known low at fresh,
              (
                len' ∙ len,
                λ n n_known n_low.
                    occurs-add_required n f req bits'
                    ∙ (still n n_known n_low ∙ ap (λ xs. bit_of xs n) (sym same)),
              ),
              omega (
                arith,
                occurs-add_required f f req bits',
                here,
                ap {B = ℕ} (λ (b : Bool). if b then 1 else 0) (==_refl f),
              ),
              λ n once. kept n once,
            )
      ]
