-- ===== src/Unstructured/Pattern/Tags.antt =====
-- include/ghex/unstructured/pattern.hpp: the tags of unstructured patterns.
use ghex.Base.{ℕ, ◌<◌, ◌≡◌}
use ghex.Base.Digits.{digit_unique}
use ghex.Unstructured.Pattern.{tag_of}

-- Where the ids of the receiving domains are below 128, no two pairs of domains have one tag.
pub tag_of-injective :
    (a b c d : ℕ) → b < 128 → d < 128 → tag_of a b ≡ tag_of c d → (a ≡ c) × (b ≡ d)
unfolding tag_of
tag_of-injective a b c d lb ld e = let (low, high) = digit_unique 128 b d a c lb ld e in (high, low)
