-- ===== src/Logging/Carried.antt =====
-- What a handler sees of the context in which its task was created.
use dewey.Prelude.{
  String, false, Option, none, some, ◌≡◌, refl, str_eq, sym, ap, ◌∙◌, subst, Option-cases, inl, inr,
}
use dewey.Serialization.{Json, object, Fields, end, field}
use dewey.Serialization.Objects.{
  get_key, set_key, update, or_else, IsObject, get_key-set_key, get_key-update,
}
use dewey.Logging.{
  Context, get_trace_context, set_trace_context, with_trace, carried, with_extra, as_context,
  as_dict, traced, bind_to_metadata,
}

get-set_trace_context : (fs : Fields) → get_trace_context (set_trace_context fs) ≡ fs
get-set_trace_context end = refl
get-set_trace_context (field k v fs) = refl

set_trace :
    (metadata merged : Fields)
    → (as_context (get_key "trace" (set_key "trace" (object merged) metadata)) ≡ merged)
      × ((j : String)
          → str_eq "trace" j ≡ false
          → get_key j (set_key "trace" (object merged) metadata) ≡ get_key j metadata)
set_trace metadata merged = (
  rw (get_key-set_key "trace" "trace" (object merged) metadata) refl,
  λ j n. get_key-set_key j "trace" (object merged) metadata ∙ rw n refl,
)

carried_trace :
    (dict_of : Json → Option Fields) (metadata out ctx : Fields) (k : String) (v : Json)
    → IsObject ctx
    → carried dict_of metadata ctx ≡ some out
    → get_key k ctx ≡ some v
    → (get_key k (as_context (get_key "trace" out)) ≡ some v)
      × ((j : String) → str_eq "trace" j ≡ false → get_key j out ≡ get_key j metadata)
unfolding get_key
carried_trace dict_of metadata out end k v once bound found = cc
carried_trace dict_of metadata out (field i w ctx) k v once bound found =
    let whole : Fields = field i w ctx in
    elim (Option-cases (as_dict dict_of (get_key "trace" metadata))) [
      | inl e ↦ cc (ap (λ o. with_trace metadata o whole) (sym e) ∙ bound)
      | inr (existing, e) ↦
          let (merged, others) = set_trace metadata (update existing whole) in
          let same : set_key "trace" (object (update existing whole)) metadata ≡ out =
            cc (ap (λ o. with_trace metadata o whole) (sym e) ∙ bound) in
          subst
            (λ (o : Fields).
              (get_key k (as_context (get_key "trace" o)) ≡ some v)
              × ((j : String) → str_eq "trace" j ≡ false → get_key j o ≡ get_key j metadata))
            same
            (
              ap (get_key k) merged
                  ∙ get_key-update k existing whole once
                  ∙ ap (λ o. or_else o (get_key k existing)) found,
              others,
            )
    ]

-- Each correlation id of the producer's context is what the handler finds, whatever the metadata held,
-- if the extra fields hold no trace of their own; the other fields of the metadata are the extra ones,
-- else those given; and after the handler the context is what it was before, whatever the handler
-- left there.
pub traced_context :
    (dict_of : Json → Option Fields) (metadata extra m ctx : Fields) (k j : String) (v : Json)
    (left : Context → Context) (before : Context)
    → IsObject ctx
    → IsObject extra
    → get_key "trace" extra ≡ none
    → bind_to_metadata dict_of metadata extra (some ctx) ≡ some m
    → get_key k ctx ≡ some v
    → str_eq "trace" j ≡ false
    → (traced m (λ c. (get_key k (get_trace_context c), left c)) before ≡ (some v, before))
      × (get_key j m ≡ or_else (get_key j extra) (get_key j metadata))
unfolding bind_to_metadata traced
traced_context dict_of metadata extra m ctx k j v left before once extra_once free bound found
      other =
    elim (Option-cases (carried dict_of metadata ctx)) [
      | inl e ↦ cc (ap (with_extra extra) (sym e) ∙ bound)
      | inr (out, e) ↦
          let (seen, others) = carried_trace dict_of metadata out ctx k v once e found in
          let same : update out extra ≡ m = cc (ap (with_extra extra) (sym e) ∙ bound) in
          let trace : get_key "trace" m ≡ get_key "trace" out =
            ap (get_key "trace") (sym same)
            ∙ get_key-update "trace" out extra extra_once
            ∙ ap (λ o. or_else o (get_key "trace" out)) free in
          (
            ap (λ o. (o, before))
                (ap (get_key k) (get-set_trace_context (as_context (get_key "trace" m)))
                  ∙ ap (λ o. get_key k (as_context o)) trace
                  ∙ seen),
            ap (get_key j) (sym same)
                ∙ get_key-update j out extra extra_once
                ∙ ap (or_else (get_key j extra)) (others j other),
          )
    ]
