-- ===== src/Routeplan/Lookup.antt =====
-- `RoutePlan.lookup` of labztna/routeplan.py chooses by the longest prefix.
use ztna_lab.Base.{
  ℕ, ◌≤◌, ◌<◌, Bool, true, false, Option, none, some, List, [], ◌∷◌, ◌++◌, ◌≡◌, ◌⊎◌, inl, inr, refl,
  ap, arith, All, if◌then◌else◌, ltb, ltb→lt,
}
use ztna_lab.Addresses.{in_network, ipv4}
use ztna_lab.Routeplan.{RouteEntry, RoutePlan, matches, longest, longest_of, lookup}

-- A matching route among `routes`, such that the matching ones before it have shorter prefixes and
-- those after it have no longer ones.
pub record IsBest (target : ℕ) (r : RouteEntry) (routes : List RouteEntry) : Type 0 where
  pub before : List RouteEntry
  pub after : List RouteEntry
  pub listed : routes ≡ before ++ r ∷ after
  pub matching : in_network target r.prefix ≡ true
  pub shorter :
      All (λ s. in_network target s.prefix ≡ true → s.prefix.prefixlen < r.prefix.prefixlen) before
  pub no_longer :
      All (λ s. in_network target s.prefix ≡ true → s.prefix.prefixlen ≤ r.prefix.prefixlen) after

-- What a lookup gives: the best route, or nothing where no route matches.
abbrev pub IsChosen : ℕ → List RouteEntry → Option RouteEntry → Type 0
IsChosen target routes (some r) = IsBest target r routes
IsChosen target routes none = All (λ s. in_network target s.prefix ≡ false) routes

abbrev IsBetter : ℕ → RouteEntry → RouteEntry → List RouteEntry → Type 0
IsBetter target best r routes =
    ((r ≡ best)
      × All (λ s. in_network target s.prefix ≡ true → s.prefix.prefixlen ≤ best.prefix.prefixlen)
          routes)
    ⊎ (IsBest target r routes × (best.prefix.prefixlen < r.prefix.prefixlen))

module _ (target : ℕ) where
  IsBest-cons :
      (s r : RouteEntry) (routes : List RouteEntry)
      → (in_network target s.prefix ≡ true → s.prefix.prefixlen < r.prefix.prefixlen)
      → IsBest target r routes
      → IsBest target r (s ∷ routes)
  IsBest-cons s r routes h b = record {
    before = s ∷ b.before;
    after = b.after;
    listed = ap (◌∷◌ s) b.listed;
    matching = b.matching;
    shorter = (h, b.shorter);
    no_longer = b.no_longer;
  }

  IsBetter-IsBest :
      (s r : RouteEntry) (routes : List RouteEntry)
      → in_network target s.prefix ≡ true
      → IsBetter target s r routes
      → IsBest target r (s ∷ routes)
  IsBetter-IsBest s r routes m (inl (same, all)) = record {
    before = [];
    after = routes;
    listed = rw same refl;
    matching = rw same m;
    shorter = tt;
    no_longer = rw same all;
  }
  IsBetter-IsBest s r routes m (inr (b, lt)) = IsBest-cons s r routes (λ _. lt) b

  IsBetter-cons :
      (s best r : RouteEntry) (routes : List RouteEntry)
      → (in_network target s.prefix ≡ true → s.prefix.prefixlen ≤ best.prefix.prefixlen)
      → IsBetter target best r routes
      → IsBetter target best r (s ∷ routes)
  IsBetter-cons s best r routes h (inl (same, all)) = inl (same, (h, all))
  IsBetter-cons s best r routes h (inr (b, lt)) =
      inr (IsBest-cons s r routes (λ m. let le = h m in omega arith) b, lt)

  -- A longer route takes the place of the best so far.
  IsBetter-longer :
      (s best r : RouteEntry) (routes : List RouteEntry)
      → in_network target s.prefix ≡ true
      → best.prefix.prefixlen < s.prefix.prefixlen
      → IsBetter target s r routes
      → IsBetter target best r (s ∷ routes)
  IsBetter-longer s best r routes m lt (inl (same, all)) =
      inr (IsBetter-IsBest s r routes m (inl (same, all)), rw same lt)
  IsBetter-longer s best r routes m lt (inr (b, more)) =
      inr (IsBetter-IsBest s r routes m (inr (b, more)), omega arith)

  IsBetter-next :
      (s best : RouteEntry) (routes : List RouteEntry) (b : Bool)
      → in_network target s.prefix ≡ true
      → ltb best.prefix.prefixlen s.prefix.prefixlen ≡ b
      → IsBetter target s (longest s (matches target routes)) routes
      → IsBetter target best (longest best (matches target routes)) routes
      → IsBetter target best (longest (if b then s else best) (matches target routes)) (s ∷ routes)
  IsBetter-next s best routes true m e new old =
      IsBetter-longer s best _ routes m (ltb→lt _ _ e) new
  IsBetter-next s best routes false m e new old =
      IsBetter-cons s best _ routes (λ _. ground arith) old

  longest-cons :
      (s best : RouteEntry) (routes : List RouteEntry) (b : Bool)
      → in_network target s.prefix ≡ b
      → IsBetter target s (longest s (matches target routes)) routes
      → IsBetter target best (longest best (matches target routes)) routes
      → IsBetter target best
          (longest best (if b then s ∷ matches target routes else matches target routes))
          (s ∷ routes)
  unfolding longest
  longest-cons s best routes true m new old =
      IsBetter-next s best routes (ltb best.prefix.prefixlen s.prefix.prefixlen) m refl new old
  longest-cons s best routes false m new old = IsBetter-cons s best _ routes (λ h. cc) old

  longest-IsBetter :
      (best : RouteEntry) (routes : List RouteEntry)
      → IsBetter target best (longest best (matches target routes)) routes
  unfolding matches longest
  longest-IsBetter best [] = inl (refl, tt)
  longest-IsBetter best (s ∷ routes) =
      longest-cons s best routes (in_network target s.prefix) refl (longest-IsBetter s routes)
        (longest-IsBetter best routes)

  IsChosen-cons :
      (s : RouteEntry) (routes : List RouteEntry) (o : Option RouteEntry)
      → in_network target s.prefix ≡ false
      → IsChosen target routes o
      → IsChosen target (s ∷ routes) o
  IsChosen-cons s routes (some r) h b = IsBest-cons s r routes (λ m. cc) b
  IsChosen-cons s routes none h all = (h, all)

  IsChosen-step :
      (s : RouteEntry) (routes : List RouteEntry) (b : Bool)
      → in_network target s.prefix ≡ b
      → IsChosen target routes (longest_of (matches target routes))
      → IsChosen target
          (s ∷ routes)
          (longest_of (if b then s ∷ matches target routes else matches target routes))
  unfolding longest_of
  IsChosen-step s routes true m chosen = IsBetter-IsBest s _ routes m (longest-IsBetter s routes)
  IsChosen-step s routes false m chosen = IsChosen-cons s routes _ m chosen

  matches-IsChosen :
      (routes : List RouteEntry) → IsChosen target routes (longest_of (matches target routes))
  unfolding matches longest_of
  matches-IsChosen [] = tt
  matches-IsChosen (s ∷ routes) =
      IsChosen-step s routes (in_network target s.prefix) refl (matches-IsChosen routes)

-- A lookup chooses a route that contains the address, such that the matching routes before it in the
-- plan have shorter prefixes and those after it no longer ones; it gives nothing only where no
-- route of the plan contains the address.
pub lookup-IsChosen :
    (target : ℕ) (plan : RoutePlan) → IsChosen target plan.routes (lookup (ipv4 target) plan)
unfolding lookup
lookup-IsChosen target plan = matches-IsChosen target plan.routes
