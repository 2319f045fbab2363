-- ===== src/Cluster/Pages.antt =====
-- cluster/cluster.go: that DescribeAllServices describes every service of every page.
use mathlib.Core.List.{Perm, map-append}
use mathlib.Core.List.Perm
use ecstoolkit.Base.{
  ℕ, zero, suc, ◌≤◌, ◌≡◌, refl, List, [], ◌∷◌, ◌++◌, append-nil, map, Option, some, none, Result,
  ok, arith, length, pos, ◌≢◌, eq_bytes, eq_bytes_iff,
}
use ecstoolkit.Method.{Method}
use ecstoolkit.Buffer.{Bytes}
use ecstoolkit.Cluster.Chunk.{chunk, concat, Sized, chunk-concat}
use ecstoolkit.Cluster.{
  Aws, Cluster, Service, describe_chunks, describe_pages, describe_all_services, next_pages,
}

-- The answer has exactly the services with the names, in some order.
pub record IsDescribed (service : Bytes → Service) (names : List Bytes) (r : Result (List Service))
    : Type 0 where
  pub services : List Service
  pub returns : r ≡ ok services
  pub complete : Perm services (map service names)

-- No token, or an empty one, comes after the last page.
abbrev pub IsEnd : Option Bytes → Type 0
IsEnd none = Unit {0}
IsEnd (some token) = token ≡ []

-- The pages from a token on, with the names on them and their number. What a page has and what comes after it
-- does not depend on the time of the call.
pub data Listed {W : Type 0} (aws : Aws W) : Option Bytes → List Bytes → ℕ → Type 0 where
  last :
      (token after : Option Bytes) (names : List Bytes)
      → IsEnd after
      → ((w : W) → (aws.list_services token w).0 ≡ ok (names, after))
      → Listed aws token names 1
  page :
      (token : Option Bytes) (next : Bytes) (names rest : List Bytes) (n : ℕ)
      → next ≢ []
      → ((w : W) → (aws.list_services token w).0 ≡ ok (names, some next))
      → Listed aws (some next) rest n
      → Listed aws token (names ++ rest) (suc n)

module _ {W : Type 0} (aws : Aws W) (service : Bytes → Service)
    (describing : (names : List Bytes) (w : W)
      → 1 ≤ length names
      → length names ≤ 10
      → IsDescribed service names (aws.describe_services names w).0) where
  chunks-IsDescribed :
      (chunks : List (List Bytes)) (c : Cluster W)
      → Sized 10 chunks
      → IsDescribed service (concat chunks) (describe_chunks aws chunks c).0
  unfolding describe_chunks
  chunks-IsDescribed [] c h = record { services = []; returns = refl; complete = Perm.rfl }
  chunks-IsDescribed (names ∷ rest) c h =
      let d = describing names c.world h.0 h.1 in
      let r =
        chunks-IsDescribed rest (record c { world = (aws.describe_services names c.world).1 })
          h.2 in
      rw (d.returns, r.returns)
        (record {
          services = d.services ++ r.services;
          returns = refl;
          complete = rw map-append (Perm.append d.complete r.complete);
        })

  -- A page of names is described in requests of at most ten.
  names-IsDescribed :
      (names : List Bytes) (c : Cluster W)
      → IsDescribed service names (describe_chunks aws (chunk names (pos 10)) c).0
  names-IsDescribed names c =
      let (e, h) = chunk-concat names (pos 10) (omega arith) in
      rw e at (chunks-IsDescribed (chunk names (pos 10)) c h)

  no_more :
      (go : Option Bytes → Method (Cluster W) (List Service)) (after : Option Bytes) (c : Cluster W)
      → IsEnd after
      → next_pages aws go after c ≡ (ok [], c)
  unfolding next_pages
  no_more go none c h = refl
  no_more go (some token) c h = rw (h, eq_bytes) refl

  more :
      (go : Option Bytes → Method (Cluster W) (List Service)) (next : Bytes) (c : Cluster W)
      → next ≢ []
      → next_pages aws go (some next) c ≡ go (some next) c
  unfolding next_pages
  more go next c h = ground (arith, eq_bytes_iff next [])

  describe_pages-IsDescribed :
      (fuel : ℕ) (token : Option Bytes) (names : List Bytes) (n : ℕ) (c : Cluster W)
      → Listed aws token names n
      → n ≤ fuel
      → IsDescribed service names (describe_pages aws fuel token c).0
  unfolding describe_pages
  describe_pages-IsDescribed zero token _ _ c (last _ after names end e) l = absurd (omega arith)
  describe_pages-IsDescribed (suc fuel) token _ _ c (last _ after names end e) l =
      let c' = record c { world = (aws.list_services token c.world).1 } in
      let d = names-IsDescribed names c' in
      let stop =
        no_more (describe_pages aws fuel) after (describe_chunks aws (chunk names (pos 10)) c').1
          end in
      rw (e c.world, d.returns, stop)
        (record {
          services = d.services ++ [];
          returns = refl;
          complete = rw append-nil d.complete;
        })
  describe_pages-IsDescribed zero token _ _ c (page _ next names rest n ne e p) l =
      absurd (omega arith)
  describe_pages-IsDescribed (suc fuel) token _ _ c (page _ next names rest n ne e p) l =
      let c' = record c { world = (aws.list_services token c.world).1 } in
      let d = names-IsDescribed names c' in
      let r =
        describe_pages-IsDescribed fuel (some next) rest n
          (describe_chunks aws (chunk names (pos 10)) c').1 p (omega arith) in
      let go =
        more (describe_pages aws fuel) next (describe_chunks aws (chunk names (pos 10)) c').1 ne in
      rw (e c.world, d.returns, go, r.returns)
        (record {
          services = d.services ++ r.services;
          returns = refl;
          complete = rw map-append (Perm.append d.complete r.complete);
        })

  -- If each request for one to ten names is answered with the services of these names, in some order, and the pages
  -- stay what they are, then with fuel for the number of pages the call returns the services of the
  -- names on all pages, each as often as its name is there, and nothing else.
  pub describe_all_services-IsDescribed :
      (names : List Bytes) (n fuel : ℕ) (c : Cluster W)
      → Listed aws none names n
      → n ≤ fuel
      → IsDescribed service names (describe_all_services aws fuel c).0
  unfolding describe_all_services
  describe_all_services-IsDescribed names n fuel c p l =
      describe_pages-IsDescribed fuel none names n c p l
