-- ===== src/Structured/Pattern/Make/Translate.antt =====
-- include/ghex/structured/pattern.hpp: the translation of receive halos to send halos.
use mathlib.Core.Logic.{◌≢◌}
use mathlib.Core.Option.{some-injective}
use ghex.Base.{
  ℕ, ◌≡◌, ◌⊎◌, refl, sym, ap, ◌∙◌, subst, List, [], ◌∷◌, none, some, map, inl, inr, All, get_elem?,
  ◌>>=◌, >>=-eq-some,
}
use ghex.Base.Membership.{In, Distinct, All-In, All-of_In}
use ghex.Structured.Space.{Box2}
use ghex.Structured.Pattern.{recast}
use ghex.Structured.Pattern.Domains.{
  ExtendedId, Halos, Pattern, RankMap, add_send, find_extents, translate, translate_all,
}
use ghex.Structured.Pattern.Make.Find.{find, Alike-of_eq}
use ghex.Structured.Pattern.Make.Sends.{sent, find-add_send, find-add_send_miss}

module _ {n : ℕ} (domains : List (List (ExtendedId × Box2 n))) where
  -- The domain of a receive halo is known, with its extents.
  abbrev pub Resolves : ExtendedId → Box2 n → Type 0
  Resolves key e =
      (ds : List (ExtendedId × Box2 n)) × (get_elem? domains key.rank ≡ some ds)
      × (find_extents key.id ds ≡ some e)

  -- A send halo for the halos that `me` receives from a domain with the extents `e`.
  abbrev pub added : ExtendedId → ExtendedId → List (Box2 n) → Box2 n → RankMap n → RankMap n
  added me key spaces e m =
      add_send key.rank key.id (record me { tag = key.tag }) (map (recast e) spaces) m

  pub translate_step :
      (me key : ExtendedId) (spaces : List (Box2 n)) (halos : Halos n) (m m' : RankMap n)
      → translate domains me ((key, spaces) ∷ halos) m ≡ some m'
      → (e : Box2 n) × Resolves key e
        × (translate domains me halos (added me key spaces e m) ≡ some m')
  unfolding translate
  translate_step me key spaces halos m m' h =
      let f = λ (ds : List (ExtendedId × Box2 n)).
        find_extents key.id ds >>= λ e. translate domains me halos (added me key spaces e m) in
      let first = >>=-eq-some (get_elem? domains key.rank) f h in
      let second =
        >>=-eq-some (find_extents key.id first.0)
          (λ e. translate domains me halos (added me key spaces e m)) first.2 in
      (second.0, (first.0, first.1, second.1), second.2)

  -- What every step keeps is kept by the loops.
  module _ (P : RankMap n → Type 0)
      (keep : (me key : ExtendedId) (spaces : List (Box2 n)) (e : Box2 n) (m : RankMap n)
        → Resolves key e
        → P m
        → P (added me key spaces e m)) where
    translate_inv :
        (me : ExtendedId) (halos : Halos n) (m m' : RankMap n)
        → translate domains me halos m ≡ some m'
        → P m
        → P m'
    unfolding translate
    translate_inv me [] m m' h p = subst P (some-injective m m' h) p
    translate_inv me ((key, spaces) ∷ halos) m m' h p =
        let (e, r, rest) = translate_step me key spaces halos m m' h in
        translate_inv me halos (added me key spaces e m) m' rest (keep me key spaces e m r p)

    pub translate_all_inv :
        (ps : List (Pattern n)) (m m' : RankMap n)
        → translate_all domains ps m ≡ some m'
        → P m
        → P m'
    unfolding translate_all
    translate_all_inv [] m m' h p = subst P (some-injective m m' h) p
    translate_all_inv (q ∷ ps) m m' h p =
        let (m1, first, rest) =
          >>=-eq-some (translate domains q.id q.recv_halos m) (translate_all domains ps) h in
        translate_all_inv ps m1 m' rest (translate_inv q.id q.recv_halos m m1 first p)

  -- If all domains are known, the translation has a result.
  translate_total :
      (me : ExtendedId) (halos : Halos n) (m : RankMap n)
      → All (λ x. (e : Box2 n) × Resolves x.0 e) halos
      → (m' : RankMap n) × (translate domains me halos m ≡ some m')
  unfolding translate
  translate_total me [] m h = (m, refl)
  translate_total me ((key, spaces) ∷ halos) m h =
      let (e, (ds, a, b)) = h.0 in
      let r = translate_total me halos (added me key spaces e m) h.1 in (r.0, rw (a, b) r.1)

  pub translate_all_total :
      (ps : List (Pattern n)) (m : RankMap n)
      → All (λ p. All (λ x. (e : Box2 n) × Resolves x.0 e) p.recv_halos) ps
      → (m' : RankMap n) × (translate_all domains ps m ≡ some m')
  unfolding translate_all
  translate_all_total [] m h = (m, refl)
  translate_all_total (p ∷ ps) m h =
      let (m1, a) = translate_total p.id p.recv_halos m h.0 in
      let (m2, b) = translate_all_total ps m1 h.1 in (m2, rw a b)

  module _ (k : ExtendedId) (q e : ℕ) where
    -- The halo is none of the ones that are sent to the domain `e` of the rank `q` under the key.
    abbrev pub Misses : ExtendedId → ExtendedId → Type 0
    Misses me key = (q ≢ key.rank) ⊎ (e ≢ key.id) ⊎ (k.id ≢ me.id)

    translate-Misses :
        (me : ExtendedId) (halos : Halos n) (m m' : RankMap n)
        → translate domains me halos m ≡ some m'
        → All (λ x. Misses me x.0) halos
        → find k (sent m' q e) ≡ find k (sent m q e)
    unfolding translate
    translate-Misses me [] m m' h a = ap (λ x. find k (sent x q e)) (sym (some-injective m m' h))
    translate-Misses me ((key, spaces) ∷ halos) m m' h a =
        let (x, r, rest) = translate_step me key spaces halos m m' h in
        translate-Misses me halos (added me key spaces x m) m' rest a.1
        ∙ find-add_send_miss key.rank key.id (record me { tag = key.tag }) (map (recast x) spaces) k
            m q e a.0

    pub translate_all-Misses :
        (ps : List (Pattern n)) (m m' : RankMap n)
        → translate_all domains ps m ≡ some m'
        → All (λ p. k.id ≢ p.id.id) ps
        → find k (sent m' q e) ≡ find k (sent m q e)
    unfolding translate_all
    translate_all-Misses [] m m' h a = ap (λ x. find k (sent x q e)) (sym (some-injective m m' h))
    translate_all-Misses (p ∷ ps) m m' h a =
        let (m1, first, rest) =
          >>=-eq-some (translate domains p.id p.recv_halos m) (translate_all domains ps) h in
        translate_all-Misses ps m1 m' rest a.1
        ∙ translate-Misses p.id p.recv_halos m m1 first
            (All-of_In (λ x. Misses p.id x.0) p.recv_halos (λ x i. inr (inr a.0)))

  -- What a rank has for a domain of another after the translation of a receive halo from it.
  abbrev pub Translated : ExtendedId → ExtendedId → List (Box2 n) → RankMap n → Type 0
  Translated me key spaces m =
      let k : ExtendedId = record me { tag = key.tag } in
      (x : Box2 n) × Resolves key x
      × (find k (sent m key.rank key.id) ≡ some (k, map (recast x) spaces))

  translate-Translated :
      (me key : ExtendedId) (spaces : List (Box2 n)) (halos : Halos n) (m m' : RankMap n)
      → translate domains me halos m ≡ some m'
      → In (key, spaces) halos
      → Distinct (λ x. x.0.id) halos
      → find (record me { tag = key.tag }) (sent m key.rank key.id) ≡ none
      → Translated me key spaces m'
  unfolding translate
  translate-Translated me key spaces [] m m' h i d new = absurd i
  translate-Translated me key spaces ((l, v) ∷ halos) m m' h (inr i) d new =
      let k : ExtendedId = record me { tag = key.tag } in
      let (x, r, rest) = translate_step me l v halos m m' h in
      let ne = All-In (λ y. l.id ≢ y.0.id) (key, spaces) halos d.0 i in
      translate-Translated me key spaces halos (added me l v x m) m' rest i d.1 (
        find-add_send_miss l.rank l.id (record me { tag = l.tag }) (map (recast x) v) k m key.rank
          key.id (inr (inl (λ e. ne (sym e))))
        ∙ new)
  translate-Translated me key spaces ((l, v) ∷ halos) m m' h (inl same) d new =
      subst
        (λ (y : ExtendedId × List (Box2 n)).
          find (record me { tag = y.0.tag }) (sent m y.0.rank y.0.id) ≡ none
          → Translated me y.0 y.1 m')
        (sym same)
        (λ new'.
          let k : ExtendedId = record me { tag = l.tag } in
          let (x, r, rest) = translate_step me l v halos m m' h in
          (
            x,
            r,
            translate-Misses k l.rank l.id me halos (added me l v x m) m' rest (
                  All-of_In (λ y. Misses k l.rank l.id me y.0) halos
                    (λ y i. inr (inl (All-In (λ z. l.id ≢ z.0.id) y halos d.0 i))))
                ∙ find-add_send l.rank l.id k (map (recast x) v) k m (Alike-of_eq k k refl refl)
                    new',
          ))
        new

  pub translate_all-Translated :
      (p : Pattern n) (key : ExtendedId) (spaces : List (Box2 n)) (ps : List (Pattern n))
      (m m' : RankMap n)
      → translate_all domains ps m ≡ some m'
      → In p ps
      → In (key, spaces) p.recv_halos
      → All (λ q. Distinct (λ x. x.0.id) q.recv_halos) ps
      → Distinct (λ q. q.id.id) ps
      → find (record p.id { tag = key.tag }) (sent m key.rank key.id) ≡ none
      → Translated p.id key spaces m'
  unfolding translate_all
  translate_all-Translated p key spaces [] m m' h i j d ids new = absurd i
  translate_all-Translated p key spaces (q ∷ ps) m m' h (inr i) j d ids new =
      let k : ExtendedId = record p.id { tag = key.tag } in
      let (m1, first, rest) =
        >>=-eq-some (translate domains q.id q.recv_halos m) (translate_all domains ps) h in
      let ne = All-In (λ y. q.id.id ≢ y.id.id) p ps ids.0 i in
      translate_all-Translated p key spaces ps m1 m' rest i j d.1 ids.1 (
        translate-Misses k key.rank key.id q.id q.recv_halos m m1 first (
          All-of_In (λ x. Misses k key.rank key.id q.id x.0) q.recv_halos
            (λ x y. inr (inr (λ e. ne (sym e)))))
        ∙ new)
  translate_all-Translated p key spaces (q ∷ ps) m m' h (inl same) j d ids new =
      let k : ExtendedId = record p.id { tag = key.tag } in
      let (m1, first, rest) =
        >>=-eq-some (translate domains q.id q.recv_halos m) (translate_all domains ps) h in
      let (x, r, here) =
        translate-Translated p.id key spaces p.recv_halos m m1
          (subst (λ z. translate domains z.id z.recv_halos m ≡ some m1) (sym same) first) j
          (subst (λ z. Distinct (λ x. x.0.id) z.recv_halos) (sym same) d.0) new in
      (
        x,
        r,
        translate_all-Misses k key.rank key.id ps m1 m' rest
              (subst (λ z. All (λ y. z.id.id ≢ y.id.id) ps) (sym same) ids.0)
            ∙ here,
      )
