-- ===== src/Range/Normal.antt =====
-- lib/range.tcc: what `set` and `erase` make of the changepoints, without the iterators.
use mathlib.Core.List.{append_assoc}
use cromfs.Base.{
  ℕ, suc, ◌+◌, ◌≤◌, ◌<◌, ◌≡◌, refl, sym, ap, ap₂, ◌∙◌, arith, true, false, [], ◌∷◌, ◌++◌, length,
  All, some, Bool-cases, inl, inr,
}
use cromfs.Base.{ltb, ◌==◌, if◌then◌else◌}
use cromfs.Range.{
  Valueholder, Changepoints, keys_below, keys_from, last_of, erase_from, erase_end, erase_start,
  erase, set_end, set_start, set_range, set_node, erase_node,
}
use cromfs.Base.{Bool}

module _ {V : Type 0} where
  -- The keys ascend, from `k` on.
  unfoldable pub IsAscending : ℕ → Changepoints V → Type 0
  IsAscending k [] = Unit {0}
  IsAscending k ((j, x) ∷ rest) = (k ≤ j) × IsAscending (suc j) rest

  abbrev pub AreBelow : ℕ → Changepoints V → Type 0
  AreBelow k entries = All (λ e. e.0 < k) entries

  -- The value that holds behind these changepoints.
  abbrev pub last_value : V → Changepoints V → V
  last_value c [] = c
  last_value c ((j, x) ∷ rest) = last_value x rest

  pub below-from : (k : ℕ) (d : Changepoints V) → keys_below k d ++ keys_from k d ≡ d
  unfolding keys_below keys_from
  below-from k [] = refl
  below-from k ((j, x) ∷ rest) = elim (Bool-cases (ltb j k)) [
    | inl e ↦ rw e (ap (λ t. (j, x) ∷ t) (below-from k rest))
    | inr e ↦ rw e refl
  ]

  pub AreBelow-keys_below : (k : ℕ) (d : Changepoints V) → AreBelow k (keys_below k d)
  unfolding keys_below
  AreBelow-keys_below k [] = tt
  AreBelow-keys_below k ((j, x) ∷ rest) = elim (Bool-cases (ltb j k)) [
    | inl e ↦ rw e (ground arith, AreBelow-keys_below k rest)
    | inr e ↦ rw e tt
  ]

  pub IsAscending-more : (i k : ℕ) (d : Changepoints V) → i ≤ k → IsAscending k d → IsAscending i d
  unfolding IsAscending
  IsAscending-more i k [] h asc = tt
  IsAscending-more i k ((j, x) ∷ rest) h (first, asc) = (omega arith, asc)

  pub IsAscending-keys_from :
      (i k : ℕ) (d : Changepoints V) → IsAscending i d → IsAscending k (keys_from k d)
  unfolding keys_from IsAscending
  IsAscending-keys_from i k [] asc = tt
  IsAscending-keys_from i k ((j, x) ∷ rest) (first, asc) = elim (Bool-cases (ltb j k)) [
    | inl e ↦ rw e (IsAscending-keys_from (suc j) k rest asc)
    | inr e ↦ rw e (ground arith, asc)
  ]

  pub keys_below-append :
      (k : ℕ) (a b : Changepoints V) → AreBelow k a → IsAscending k b → keys_below k (a ++ b) ≡ a
  unfolding keys_below IsAscending
  keys_below-append k [] [] below asc = refl
  keys_below-append k [] ((j, x) ∷ b) below (first, asc) =
      let e : ltb j k ≡ false = ground arith in rw e refl
  keys_below-append k ((j, x) ∷ a) b (here, below) asc =
      let e : ltb j k ≡ true = ground arith in
      rw e (ap (λ t. (j, x) ∷ t) (keys_below-append k a b below asc))

  pub keys_from-append :
      (k : ℕ) (a b : Changepoints V) → AreBelow k a → IsAscending k b → keys_from k (a ++ b) ≡ b
  unfolding keys_from IsAscending
  keys_from-append k [] [] below asc = refl
  keys_from-append k [] ((j, x) ∷ b) below (first, asc) =
      let e : ltb j k ≡ false = ground arith in rw e refl
  keys_from-append k ((j, x) ∷ a) b (here, below) asc =
      let e : ltb j k ≡ true = ground arith in rw e (keys_from-append k a b below asc)

  erase_from-append :
      (up : ℕ) (m b : Changepoints V)
      → AreBelow up m
      → IsAscending up b
      → erase_from up (m ++ b) ≡ (b, length m)
  unfolding erase_from IsAscending
  erase_from-append up [] [] below asc = refl
  erase_from-append up [] ((j, x) ∷ b) below (first, asc) =
      let e : ltb j up ≡ false = ground arith in rw e refl
  erase_from-append up ((j, x) ∷ m) b (here, below) asc =
      let e : ltb j up ≡ true = ground arith in
      let n : length m + 1 ≡ suc (length m) = omega arith in
      rw (e, erase_from-append up m b below asc) (ap (λ t. (b, t)) n)

  pub last_of-last_value :
      (c : V) (e : ℕ × V) (es : Changepoints V) → last_of (e ∷ es) ≡ some (last_value c (e ∷ es))
  unfolding last_of
  last_of-last_value c (j, x) [] = refl
  last_of-last_value c (j, x) (e ∷ es) = rw (last_of-last_value x e es) refl

  pub AreBelow_more : (i k : ℕ) (d : Changepoints V) → i ≤ k → AreBelow i d → AreBelow k d
  AreBelow_more i k [] h below = tt
  AreBelow_more i k ((j, x) ∷ rest) h (here, below) = (omega arith, AreBelow_more i k rest h below)

  pub AreBelow-append :
      (k : ℕ) (a b : Changepoints V) → AreBelow k a → AreBelow k b → AreBelow k (a ++ b)
  AreBelow-append k [] b below below' = below'
  AreBelow-append k ((j, x) ∷ a) b (here, below) below' = (here, AreBelow-append k a b below below')

  pub IsAscending-append :
      (lo up : ℕ) (m t : Changepoints V)
      → lo ≤ up
      → IsAscending lo m
      → AreBelow up m
      → IsAscending up t
      → IsAscending lo (m ++ t)
  unfolding IsAscending
  IsAscending-append lo up [] t low middle inside asc = IsAscending-more lo up t low asc
  IsAscending-append lo up ((j, x) ∷ m) t low (first, middle) (here, inside) asc =
      (first, IsAscending-append (suc j) up m t (omega arith) middle inside asc)

  pub IsAscending-keys_below :
      (i k : ℕ) (d : Changepoints V) → IsAscending i d → IsAscending i (keys_below k d)
  unfolding keys_below IsAscending
  IsAscending-keys_below i k [] asc = tt
  IsAscending-keys_below i k ((j, x) ∷ rest) (first, asc) = elim (Bool-cases (ltb j k)) [
    | inl e ↦ rw e (first, IsAscending-keys_below (suc j) k rest asc)
    | inr e ↦ rw e tt
  ]

-- An `if` behind the same list.
append-if :
    {V : Type 0} (c : Bool) (f a b : Changepoints V)
    → (if c then f ++ a else f ++ b) ≡ f ++ (if c then a else b)
append-if true f a b = refl
append-if false f a b = refl

module _ {V : Type 0} (H : Valueholder V) where
  -- From `up` on, behind a new value: the old value `old` starts at `up`, unless it does anyway or
  -- is the new one.
  unfoldable pub tail_of : ℕ → V → V → Changepoints V → Changepoints V
  tail_of up new old [] = if H.same old new then [] else (up, old) ∷ []
  tail_of up new old ((k, x) ∷ rest) =
      if k == up
      then (if H.same x new then rest else (k, x) ∷ rest)
      else if H.same old new
      then (k, x) ∷ rest
      else (up, old) ∷ ((k, x) ∷ rest)

  -- From `lo` on, with a new value behind `old`.
  unfoldable pub start_of : ℕ → V → V → Changepoints V → Changepoints V
  start_of lo new old rest = if H.same old new then rest else (lo, new) ∷ rest

  abbrev pub outside : ℕ → ℕ → V → Changepoints V → Changepoints V → Changepoints V → Changepoints V
  outside lo up new a m b =
      a ++ start_of lo new (last_value H.nil a) (tail_of up new (last_value H.nil (a ++ m)) b)

  pub IsAscending-tail_of :
      (up : ℕ) (new old : V) (b : Changepoints V)
      → IsAscending up b
      → IsAscending up (tail_of up new old b)
  unfolding tail_of IsAscending
  IsAscending-tail_of up new old [] asc = elim (Bool-cases (H.same old new)) [
    | inl e ↦ rw e tt
    | inr e ↦ rw e (omega arith, tt)
  ]
  IsAscending-tail_of up new old ((k, x) ∷ rest) (first, asc) = elim (Bool-cases (k == up)) [
    | inl e ↦ elim (Bool-cases (H.same x new)) [
      | inl e' ↦ rw (e, e') (IsAscending-more up (suc k) rest (omega arith) asc)
      | inr e' ↦ rw (e, e') (first, asc)
    ]
    | inr e ↦ elim (Bool-cases (H.same old new)) [
      | inl e' ↦ rw (e, e') (first, asc)
      | inr e' ↦ rw (e, e') (omega arith, (ground arith, asc))
    ]
  ]

  is_nil-same : (x : V) → H.is_nil x ≡ H.same x H.nil
  is_nil-same x = elim (Bool-cases (H.is_nil x)) [
    | inl e ↦
        let at : x ≡ H.nil = H.is_nil_only x e in
        e ∙ sym (ap (λ y. H.same y H.nil) at ∙ H.same_self H.nil)
    | inr e ↦ elim (Bool-cases (H.same x H.nil)) [
      | inl e' ↦
          let at : x ≡ H.nil = H.same_only x H.nil e' in
          let wrong : false ≡ true = sym e ∙ (ap H.is_nil at ∙ H.is_nil-nil) in absurd cc
      | inr e' ↦ e ∙ sym e'
    ]
  ]

  same_nil_new : (new : V) → H.is_nil new ≡ false → H.same H.nil new ≡ false
  same_nil_new new filled = elim (Bool-cases (H.same H.nil new)) [
    | inl e ↦
        let at : H.nil ≡ new = H.same_only H.nil new e in
        let wrong : false ≡ true = sym filled ∙ (ap H.is_nil (sym at) ∙ H.is_nil-nil) in absurd cc
    | inr e ↦ e
  ]

  -- The node at `up`, by the value that holds in front of it.
  node_of : ℕ → V → V → Changepoints V → Changepoints V
  node_of up new old back = if H.same old new then back else (up, old) ∷ back

  set_node_lem :
      (up : ℕ) (new : V) (f b : Changepoints V)
      → H.is_nil new ≡ false
      → set_node H up new (last_of f) b ≡ node_of up new (last_value H.nil f) b
  unfolding set_node node_of last_of
  set_node_lem up new [] b filled = rw (same_nil_new new filled) refl
  set_node_lem up new (e ∷ f) b filled = rw (last_of-last_value H.nil e f) refl

  erase_node_lem :
      (up : ℕ) (f b : Changepoints V)
      → erase_node H up (last_of f) b ≡ node_of up H.nil (last_value H.nil f) b
  unfolding erase_node node_of last_of
  erase_node_lem up [] b = rw (H.same_self H.nil) refl
  erase_node_lem up (e ∷ f) b =
      rw (last_of-last_value H.nil e f, is_nil-same (last_value H.nil (e ∷ f))) refl

  set_end_lem :
      (up : ℕ) (new : V) (f b : Changepoints V)
      → H.is_nil new ≡ false
      → set_end H up new f b ≡ f ++ tail_of up new (last_value H.nil f) b
  unfolding set_end tail_of node_of
  set_end_lem up new f [] filled = ap (λ t. f ++ t) (set_node_lem up new f [] filled)
  set_end_lem up new f ((k, x) ∷ b) filled = rw (set_node_lem up new f ((k, x) ∷ b) filled) (
      append-if (k == up) f (if H.same x new then b else (k, x) ∷ b)
        (node_of up new (last_value H.nil f) ((k, x) ∷ b)))

  erase_end_lem :
      (up : ℕ) (f b : Changepoints V)
      → erase_end H up f b ≡ f ++ tail_of up H.nil (last_value H.nil f) b
  unfolding erase_end tail_of node_of
  erase_end_lem up f [] = ap (λ t. f ++ t) (erase_node_lem up f [])
  erase_end_lem up f ((k, x) ∷ b) =
      rw (erase_node_lem up f ((k, x) ∷ b), is_nil-same x)
        (append-if (k == up) f (if H.same x H.nil then b else (k, x) ∷ b)
          (node_of up H.nil (last_value H.nil f) ((k, x) ∷ b)))

  set_start_lem :
      (lo : ℕ) (new : V) (f b : Changepoints V)
      → H.is_nil new ≡ false
      → set_start H lo new f b ≡ f ++ start_of lo new (last_value H.nil f) b
  unfolding set_start start_of last_of
  set_start_lem lo new [] b filled = rw (same_nil_new new filled) refl
  set_start_lem lo new (e ∷ f) b filled =
      rw (set_start, last_of-last_value H.nil e f)
        (append-if (H.same (last_value H.nil (e ∷ f)) new) (e ∷ f) b ((lo, new) ∷ b))

  erase_start_lem :
      (lo n : ℕ) (f b : Changepoints V)
      → (erase_start H lo f b n).0 ≡ f ++ start_of lo H.nil (last_value H.nil f) b
  unfolding erase_start start_of last_of
  erase_start_lem lo n [] b = rw (H.same_self H.nil) refl
  erase_start_lem lo n (e ∷ f) b =
      rw (erase_start, last_of-last_value H.nil e f, is_nil-same (last_value H.nil (e ∷ f)))
        (elim (Bool-cases (H.same (last_value H.nil (e ∷ f)) H.nil)) [
          | inl e' ↦ rw e' refl
          | inr e' ↦ rw e' refl
        ])

  -- A cut of the map at `lo` and at `up`.
  module _ (lo up : ℕ) (a m b : Changepoints V) (low : lo ≤ up) (below : AreBelow lo a)
      (inside : AreBelow up m) (middle : IsAscending lo m) (above : IsAscending up b) where
    front : AreBelow up (a ++ m)
    front = AreBelow-append up a m (AreBelow_more lo up a low below) inside

    -- What stays when the keys from `lo` to `up` are erased in front of `t`.
    abbrev cleared : Changepoints V → Changepoints V
    cleared t = keys_below lo ((a ++ m) ++ t) ++ (erase_from up (keys_from lo ((a ++ m) ++ t))).0

    cleared_lem : (t : Changepoints V) → IsAscending up t → cleared t ≡ a ++ t
    cleared_lem t asc =
        let whole : (a ++ m) ++ t ≡ a ++ (m ++ t) = append_assoc a m t in
        let asc' : IsAscending lo (m ++ t) = IsAscending-append lo up m t low middle inside asc in
        let left : keys_below lo ((a ++ m) ++ t) ≡ a =
          ap (keys_below lo) whole ∙ keys_below-append lo a (m ++ t) below asc' in
        let right : keys_from lo ((a ++ m) ++ t) ≡ m ++ t =
          ap (keys_from lo) whole ∙ keys_from-append lo a (m ++ t) below asc' in
        ap₂ ◌++◌ left
          (ap (λ p. p.0) (ap (erase_from up) right ∙ erase_from-append up m t inside asc))

    pub set_range_lem :
        (new : V)
        → H.is_nil new ≡ false
        → set_range H lo up new ((a ++ m) ++ b) ≡ outside lo up new a m b
    set_range_lem new filled =
        let t : Changepoints V = tail_of up new (last_value H.nil (a ++ m)) b in
        let asc = IsAscending-tail_of up new (last_value H.nil (a ++ m)) b above in
        let low_t = IsAscending-more lo up t low asc in
        let ended : set_end H up new (keys_below up ((a ++ m) ++ b)) (keys_from up ((a ++ m) ++ b))
            ≡ (a ++ m) ++ t =
          ap₂ (set_end H up new) (keys_below-append up (a ++ m) b front above)
            (keys_from-append up (a ++ m) b front above)
          ∙ set_end_lem up new (a ++ m) b filled in
        let rest : (keys_below lo ((a ++ m) ++ t)
              ++ (erase_from up (keys_from lo ((a ++ m) ++ t))).0)
            ≡ a ++ t =
          cleared_lem t asc in
        unfold set_range in
        rw
          (
            set_range,
            ended,
            rest,
            keys_below-append lo a t below low_t,
            keys_from-append lo a t below low_t,
          )
          (set_start_lem lo new a t filled)

    pub erase_lem : (erase H lo up ((a ++ m) ++ b)).0 ≡ outside lo up H.nil a m b
    erase_lem =
        let t : Changepoints V = tail_of up H.nil (last_value H.nil (a ++ m)) b in
        let asc = IsAscending-tail_of up H.nil (last_value H.nil (a ++ m)) b above in
        let low_t = IsAscending-more lo up t low asc in
        let ended : erase_end H up (keys_below up ((a ++ m) ++ b)) (keys_from up ((a ++ m) ++ b))
            ≡ (a ++ m) ++ t =
          ap₂ (erase_end H up) (keys_below-append up (a ++ m) b front above)
            (keys_from-append up (a ++ m) b front above)
          ∙ erase_end_lem up (a ++ m) b in
        let rest : (keys_below lo ((a ++ m) ++ t)
              ++ (erase_from up (keys_from lo ((a ++ m) ++ t))).0)
            ≡ a ++ t =
          cleared_lem t asc in
        unfold erase in
        rw
          (
            erase,
            ended,
            rest,
            keys_below-append lo a t below low_t,
            keys_from-append lo a t below low_t,
          )
          (erase_start_lem lo (erase_from up (keys_from lo ((a ++ m) ++ t))).1 a t)
