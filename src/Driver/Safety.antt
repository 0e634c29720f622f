-- ===== src/Driver/Safety.antt =====
-- cromfs.cc, `Initialize` on any image: what holds whenever it returns.
use cromfs.Base.{ℕ, ◌<◌, ◌≡◌, ◌⊎◌, Bool, ◌||◌, [], length}
use cromfs.Base.{◌==◌}
use cromfs.Superblock.{Superblock, signature_01, signature_02, signature_03}
use cromfs.Inode.{Inode}
use cromfs.Driver.{Fs, LzmaDecode, Run, done, threw, undefined}

-- `P` holds of the result and the state, if the run returns.
abbrev pub Ensures : {A : Type 0} → (A → Fs → Type 0) → Run A → Type 0
Ensures P (done a s) = P a s
Ensures P (threw e s) = Unit {0}
Ensures P undefined = Unit {0}

abbrev is_known : ℕ → Bool
is_known sig = (sig == signature_01) || ((sig == signature_02) || (sig == signature_03))

abbrev pub IsKnown : ℕ → Type 0
IsKnown sig = (sig ≡ signature_01) ⊎ ((sig ≡ signature_02) ⊎ (sig ≡ signature_03))

-- The superblock and the cache stay.
abbrev Keeps : Fs → {A : Type 0} → A → Fs → Type 0
Keeps s a s' = (s'.sblock ≡ s.sblock) × (s'.fblock_cache ≡ s.fblock_cache)

-- What holds when an image has been loaded.
abbrev pub IsMounted : Unit {0} → Fs → Type 0
IsMounted u s =
    IsKnown s.sblock.sig
    × (s.fblock_cache.entries ≡ [])
    × (s.rootdir.mode ≡ 0o040555)
    × (s.rootdir.uid ≡ 0)
    × (s.rootdir.gid ≡ 0)
    × (0 < length s.fblktab)

abbrev Ready : Unit {0} → Fs → Type 0
Ready u s = IsKnown s.sblock.sig × (s.fblock_cache.entries ≡ [])

abbrev Patched : Unit {0} → Fs → Type 0
Patched u s = Ready u s × (s.rootdir.mode ≡ 0o040555) × (s.rootdir.uid ≡ 0) × (s.rootdir.gid ≡ 0)

module _ (decode : LzmaDecode) where
  abbrev Unmoved : Fs → {A : Type 0} → A → Fs → Type 0
  Unmoved s a s' = s' ≡ s
