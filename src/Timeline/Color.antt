-- ===== src/Timeline/Color.antt =====
-- `color_index` of forensics/analysis.py: the palette entry of an engine.
use goggles.Base.{ℕ, ◌+◌, ◌*◌, ◌%◌, ◌≤◌, String, ◌≡◌, refl, arith}
use Prim.Native.Char.{code}

abbrev pub viz_palette_size : ℕ
viz_palette_size = 8

-- h = (h * 31 + ord(char)) & 0xFFFFFFFF
unfoldable pub hash_from : ℕ → String → ℕ
hash_from h String.[] = h
hash_from h (String.◌∷◌ c value) = hash_from ((h * 31 + code c) % 4294967296) value

unfoldable pub color_index : String → ℕ
unfolding hash_from
color_index value = hash_from 0 value % viz_palette_size + 1

-- The same sum of powers of 31, without the mask.
unfoldable pub unmasked_from : ℕ → String → ℕ
unmasked_from h String.[] = h
unmasked_from h (String.◌∷◌ c value) = unmasked_from (h * 31 + code c) value

masked_lem :
    (h k : ℕ) (value : String) → h % 8 ≡ k % 8 → hash_from h value % 8 ≡ unmasked_from k value % 8
unfolding hash_from unmasked_from
masked_lem h k String.[] e = e
masked_lem h k (String.◌∷◌ c value) e =
    masked_lem ((h * 31 + code c) % 4294967296) (k * 31 + code c) value (omega (arith, e))

-- The palette entry is from 1 to 8, and it is the one of the hash without the mask of 32 bits.
pub color_index_lem :
    (value : String)
    → (1 ≤ color_index value)
      × (color_index value ≤ viz_palette_size)
      × (color_index value ≡ unmasked_from 0 value % viz_palette_size + 1)
unfolding color_index
color_index_lem value = (omega arith, omega arith, omega (arith, masked_lem 0 0 value refl))
