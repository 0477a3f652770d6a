-- ===== src/Nodes/Contract/Order.antt =====
-- The orders by which the candidates are sorted.
use Prim.Native.Char.{code}
use text.Mathlib.TextEquality.{Char-path}
use code_server_spawner.Common.{String, true, false, ◌≡◌, refl, arith}
use code_server_spawner.Nodes.Contract.{Candidate, text_before, smaller, less_loaded}

text_before-asym : (s t : String) → text_before s t ≡ true → text_before t s ≡ false
unfolding text_before
text_before-asym s String.[] h = absurd (cc h)
text_before-asym String.[] (String.◌∷◌ d t) h = refl
text_before-asym (String.◌∷◌ c s) (String.◌∷◌ d t) h = ground (arith, h, text_before-asym s t)

pub text_before_trans :
    (s t u : String) → text_before t s ≡ false → text_before u t ≡ false → text_before u s ≡ false
unfolding text_before
text_before_trans String.[] t u h k = refl
text_before_trans (String.◌∷◌ c s) String.[] u h k = absurd (cc h)
text_before_trans (String.◌∷◌ c s) (String.◌∷◌ d t) String.[] h k = absurd (cc k)
text_before_trans (String.◌∷◌ c s) (String.◌∷◌ d t) (String.◌∷◌ e u) h k =
    ground (arith, h, k, text_before_trans s t u)

pub text_before-connex : (s t : String) → text_before s t ≡ false → text_before t s ≡ false → s ≡ t
unfolding text_before
text_before-connex String.[] String.[] h k = refl
text_before-connex String.[] (String.◌∷◌ d t) h k = absurd (cc h)
text_before-connex (String.◌∷◌ c s) String.[] h k = absurd (cc k)
text_before-connex (String.◌∷◌ c s) (String.◌∷◌ d t) h k =
    let same : code c ≡ code d = ground (arith, h, k) in
    let (h', k') : (text_before s t ≡ false) × (text_before t s ≡ false) = ground (arith, h, k) in
    cc (Char-path c d same, text_before-connex s t h' k')

pub smaller-asym : (a b : Candidate) → smaller a b ≡ true → smaller b a ≡ false
smaller-asym a b h = ground (arith, h, text_before-asym a.fqdn b.fqdn)

pub smaller_trans :
    (a b c : Candidate) → smaller b a ≡ false → smaller c b ≡ false → smaller c a ≡ false
smaller_trans a b c h k = ground (arith, h, k, text_before_trans a.fqdn b.fqdn c.fqdn)

pub less_loaded-asym : (a b : Candidate) → less_loaded a b ≡ true → less_loaded b a ≡ false
less_loaded-asym a b h = ground (arith, h, smaller-asym a b)

pub less_loaded_trans :
    (a b c : Candidate)
    → less_loaded b a ≡ false
    → less_loaded c b ≡ false
    → less_loaded c a ≡ false
less_loaded_trans a b c h k = ground (arith, h, k, smaller_trans a b c)

-- Two candidates that neither comes before the other are the same choice.
pub smaller-connex :
    (a b : Candidate)
    → smaller a b ≡ false
    → smaller b a ≡ false
    → (a.serial ≡ b.serial) × (a.fqdn ≡ b.fqdn)
smaller-connex a b h k =
    let (s, f, g) : (a.serial ≡ b.serial)
        × (text_before a.fqdn b.fqdn ≡ false)
        × (text_before b.fqdn a.fqdn ≡ false) =
      ground (arith, h, k) in
    (s, text_before-connex a.fqdn b.fqdn f g)
