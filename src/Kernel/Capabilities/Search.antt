-- ===== src/Kernel/Capabilities/Search.antt =====
-- What searches for capabilities find, crates/core/seidrum-kernel/src/tool_registry/service.rs.
use seidrum.Base.{
  ℕ, codes, text_eq→eq, text_eq_refl, ◌≢◌, ◌↔◌, subst, sym, none, Bool-cases, inl, inr, false, ◌≤◌,
  ◌<◌, Text, text_eq, true, Option, some, List, [], ◌∷◌, map, any, All, All-take, All-retain, take,
  take_all, length, length-map, length-take, retain, ◌≡◌, refl, ap, ◌∙◌, arith,
}
use seidrum.Base.Maps.{get, values}
use seidrum.Base.Maps.Named.{holds, any-names_of, values_known}
use seidrum.Error.{Result, ok, err}
use seidrum.Kernel.Capabilities.{
  ToolEntry, ToolSummary, ToolSearchRequest, Backend, Tools, unwrap_or, summary_of, is_offered,
  of_kind, from_cache, found, handle_search,
}
use seidrum.Kernel.Capabilities.Owned.{IsTools}

-- A capability is of the kind asked for: any, or its own kind, or it is of both.
pub data IsOfKind (kind : Text) : Option Text → Type 0 where
  any_kind : IsOfKind kind none
  that_kind : IsOfKind kind (some kind)
  both_kinds : {filter : Text} → kind ≡ codes "both" → IsOfKind kind (some filter)

of_kind-IsOfKind :
    (filter : Option Text) (kind : Text) → of_kind filter kind ≡ true → IsOfKind kind filter
of_kind-IsOfKind none kind h = any_kind
of_kind-IsOfKind (some filter) kind h = elim (Bool-cases (text_eq kind filter)) [
  | inl same ↦ subst (λ f. IsOfKind kind (some f)) (text_eq→eq kind filter same) that_kind
  | inr other ↦ both_kinds (text_eq→eq kind (codes "both") (ground arith))
]

IsOfKind-of_kind :
    (filter : Option Text) (kind : Text) → IsOfKind kind filter → of_kind filter kind ≡ true
IsOfKind-of_kind _ kind any_kind = refl
IsOfKind-of_kind _ kind that_kind = rw (text_eq_refl kind) refl
IsOfKind-of_kind (some filter) kind (both_kinds both) =
    rw (both, text_eq_refl (codes "both")) (ground arith)

text_ne : (s t : Text) → text_eq s t ≡ false → t ≢ s
text_ne s t h same = ground (arith, text_eq_refl s, subst (λ u. text_eq s u ≡ false) same h)

ne_text : (s t : Text) → t ≢ s → text_eq s t ≡ false
ne_text s t h = elim (Bool-cases (text_eq s t)) [
  | inl same ↦ absurd (h (sym (text_eq→eq s t same)))
  | inr other ↦ other
]

module _ {V : Type 0} where
  -- The capability is not built in, and of the kind.
  abbrev pub IsOffered : Option Text → ToolEntry V → Type 0
  IsOffered kind t =
      (t.tool_id ≢ codes "brain-query")
      × (t.tool_id ≢ codes "search-tools")
      × (t.tool_id ≢ codes "get-tool-manual")
      × IsOfKind t.kind kind

  is_offered-IsOffered :
      (kind : Option Text) (t : ToolEntry V) → is_offered kind t ≡ true → IsOffered kind t
  is_offered-IsOffered kind t h = (
    text_ne (codes "brain-query") t.tool_id (ground arith),
    text_ne (codes "search-tools") t.tool_id (ground arith),
    text_ne (codes "get-tool-manual") t.tool_id (ground arith),
    of_kind-IsOfKind kind t.kind (ground arith),
  )

  IsOffered-is_offered :
      (kind : Option Text) (t : ToolEntry V) → IsOffered kind t → is_offered kind t ≡ true
  IsOffered-is_offered kind t (query, search, manual, of_it) =
      rw
        (
          ne_text (codes "brain-query") t.tool_id query,
          ne_text (codes "search-tools") t.tool_id search,
          ne_text (codes "get-tool-manual") t.tool_id manual,
          IsOfKind-of_kind kind t.kind of_it,
        )
        refl

  holds-IsOffered :
      (kind : Option Text) (o : Option (ToolEntry V))
      → (holds (is_offered kind) o ≡ true) ↔ ((t : ToolEntry V) × (o ≡ some t) × IsOffered kind t)
  holds-IsOffered kind none = (λ h. cc h, λ (t, known, offered). cc known)
  holds-IsOffered kind (some t) = (
    λ h. (t, refl, is_offered-IsOffered kind t h),
    λ (u, known, offered). ap (holds (is_offered kind)) known ∙ IsOffered-is_offered kind u offered,
  )

  -- The summary of a capability that the cache has, and that a search for the kind may offer.
  abbrev pub Offered : Tools V → Option Text → ToolSummary V → Type 0
  Offered tools kind s =
      (t : ToolEntry V) × (get tools t.tool_id ≡ some t) × IsOffered kind t × (s ≡ summary_of t)

  -- Summaries of capabilities in the cache, as many as the limit allows.
  pub record IsFallback (tools : Tools V) (kind : Option Text) (limit : ℕ)
      (found : List (ToolSummary V)) : Type 0 where
    pub offered : All (Offered tools kind) found
    pub within : length found ≤ limit
    pub complete :
        length found < limit
        → (id : Text)
        → (any (λ n. text_eq n id) (map (λ s. s.tool_id) found) ≡ true)
          ↔ ((t : ToolEntry V) × (get tools id ≡ some t) × IsOffered kind t)

  All-map_summary :
      (tools : Tools V) (kind : Option Text) (ts : List (ToolEntry V))
      → All (λ t. (get tools t.tool_id ≡ some t) × (is_offered kind t ≡ true)) ts
      → All (Offered tools kind) (map summary_of ts)
  All-map_summary tools kind [] h = tt
  All-map_summary tools kind (t ∷ ts) h =
      ((t, h.0.0, is_offered-IsOffered kind t h.0.1, refl), All-map_summary tools kind ts h.1)

  names_of_summaries :
      (ts : List (ToolEntry V)) → map (λ s. s.tool_id) (map summary_of ts) ≡ map (λ t. t.tool_id) ts
  names_of_summaries [] = refl
  names_of_summaries (t ∷ ts) = ap (λ ns. t.tool_id ∷ ns) (names_of_summaries ts)

  module _ (tools : Tools V) (req : ToolSearchRequest) (limit : ℕ) (valid : IsTools tools) where
    kept : List (ToolEntry V)
    kept = retain (is_offered req.kind_filter) (values tools)

    from_cache_complete :
        length (from_cache tools req limit) < limit
        → (id : Text)
        → any (λ n. text_eq n id) (map (λ s. s.tool_id) (from_cache tools req limit))
          ≡ holds (is_offered req.kind_filter) (get tools id)
    unfolding kept
    from_cache_complete short id =
        let all : take limit kept ≡ kept =
          take_all limit kept (omega (arith, length-map (summary_of {V = V}) (take limit kept))) in
        ap (any (λ n. text_eq n id))
          (names_of_summaries (take limit kept) ∙ ap (map (λ t. t.tool_id)) all)
        ∙ any-names_of (λ t. t.tool_id) (is_offered req.kind_filter) tools id valid.0 valid.1

    from_cache-IsFallback : IsFallback tools req.kind_filter limit (from_cache tools req limit)
    unfolding kept
    from_cache-IsFallback = record {
      offered = All-map_summary tools req.kind_filter (take limit kept) (
          All-take (λ t. (get tools t.tool_id ≡ some t) × (is_offered req.kind_filter t ≡ true))
            limit kept
            (All-retain (λ t. get tools t.tool_id ≡ some t) (is_offered req.kind_filter)
              (values tools) (values_known (λ t. t.tool_id) tools valid.0 valid.1)));
      within =
          omega (arith, length-map (summary_of {V = V}) (take limit kept), length-take limit kept);
      complete = λ short id.
          subst
            (λ b.
              (b ≡ true)
              ↔ ((t : ToolEntry V) × (get tools id ≡ some t) × IsOffered req.kind_filter t))
            (sym (from_cache_complete short id)) (holds-IsOffered req.kind_filter (get tools id));
    }

  -- What a search answers, by what the database found: that, unless it found nothing or failed.
  abbrev pub Searched :
      Tools V → Option Text → ℕ → Result Text (List (ToolSummary V)) → List (ToolSummary V) → Type 0
  Searched tools kind limit (ok (s ∷ ss)) found = found ≡ s ∷ ss
  Searched tools kind limit (ok []) found = IsFallback tools kind limit found
  Searched tools kind limit (err e) found = IsFallback tools kind limit found

module _ {V W : Type 0} (backend : Backend V W) where
  found-Searched :
      (tools : Tools V) (req : ToolSearchRequest) (limit : ℕ)
      (r : Result Text (List (ToolSummary V)) × W)
      → IsTools tools
      → Searched tools req.kind_filter limit r.0 (found backend tools req limit r).0
  found-Searched tools req limit (ok (s ∷ ss), w) valid = refl
  found-Searched tools req limit (ok [], w) valid = from_cache-IsFallback tools req limit valid
  found-Searched tools req limit (err e, w) valid = from_cache-IsFallback tools req limit valid

  -- Over a cache with each capability under its own id once, a search answers what the database
  -- finds. If that is nothing, or the database fails, it answers with capabilities of the cache
  -- that are not built in and of the kind asked for: at most the limit, and all of them if they
  -- are fewer.
  pub handle_search-Searched :
      (tools : Tools V) (req : ToolSearchRequest) (w : W)
      → IsTools tools
      → Searched tools req.kind_filter
          (unwrap_or 5 req.limit)
          (backend.search req (unwrap_or 5 req.limit) w).0
          (handle_search backend tools req w).0
  unfolding handle_search
  handle_search-Searched tools req w valid =
      let limit = unwrap_or 5 req.limit in
      found-Searched tools req limit (backend.search req limit w) valid
