-- ===== src/Mq/Subject/Laws.antt =====
-- internal/mq/subject.go: proofs about subjects, topic keys and stream names with their parsers.
use wave_house.Prelude.{
  All, if◌then◌else◌, length, refl, ◌++◌, ◌≡◌, ok, some, true, ◌==◌, ◌∷◌, Bool-cases, [], arith,
  none, ◌↔◌, Result, inl, ap, append_assoc, inr, sym,
}
use wave_house.Prelude.Bytes.{Bytes, IsByte, Lacks, cut-append, cut_prefix, cut_prefix-append}
use wave_house.Keyenc.{check_sep, kept}
use wave_house.Keyenc.Laws.{IsSeparator, key_of, append_join-eq, split-key_of}
use wave_house.Tenant.{IsTenantId, TenantError, is_id_byte, parse_iff}
use wave_house.Tenant
use wave_house.Mq.Subject.{
  Topic, dot, key_fields, key, subject, topic_key, key_tenant, parse_topic_key,
  ingest_stream_prefix, dlq_stream_prefix, ingest_stream_name, dlq_stream_name, stream_tenant,
  length, ok, some, [], none, Result, err,
}

-- A topic that a client may publish on.
pub record IsTopic (t : Topic) : Type 0 where
  pub tenant_ok : IsTenantId t.tenant
  pub table_ok : All IsByte t.table
  pub scope_ok : All IsByte t.scope

pub dot-IsSeparator : IsSeparator dot
unfolding check_sep kept
dot-IsSeparator = refl

pub parse_of_IsTenantId : (s : Bytes) → IsTenantId s → Tenant.parse s ≡ ok s
parse_of_IsTenantId s v = (parse_iff s s).1 (v, refl)

id_bytes-Lacks : (s : Bytes) → All (λ c. is_id_byte c ≡ true) s → Lacks dot s
unfolding is_id_byte
id_bytes-Lacks [] h = tt
id_bytes-Lacks (c ∷ s) (hc, hs) = (λ e. ground arith, id_bytes-Lacks s hs)

pub IsTenantId-Lacks : (s : Bytes) → IsTenantId s → Lacks dot s
IsTenantId-Lacks s v = id_bytes-Lacks s v.bytes

-- The text of the fields behind the tenant.
pub key_tail : Topic → Bytes
key_tail t =
    if length t.scope == 0 then key_of dot t.table [] else key_of dot t.table (t.scope ∷ [])

key-eq : (t : Topic) → key t ≡ ok (t.tenant ++ dot ∷ key_tail t)
unfolding key key_fields key_tail
key-eq t = elim (Bool-cases (length t.scope == 0)) [
  | inl e ↦
      rw (e, append_join-eq (t.tenant ++ dot ∷ []) dot t.table [] dot-IsSeparator)
        (ap ok (append_assoc t.tenant (dot ∷ []) (key_of dot t.table [])))
  | inr e ↦
      rw (e, append_join-eq (t.tenant ++ dot ∷ []) dot t.table (t.scope ∷ []) dot-IsSeparator)
        (ap ok (append_assoc t.tenant (dot ∷ []) (key_of dot t.table (t.scope ∷ []))))
]

empty_scope : (s : Bytes) → (length s == 0) ≡ true → s ≡ []
empty_scope [] h = refl
empty_scope (c ∷ s) h = ground arith

pub parse_topic_key-key :
    (t : Topic) → IsTopic t → parse_topic_key (t.tenant ++ dot ∷ key_tail t) ≡ t
unfolding parse_topic_key key_tail
parse_topic_key-key t v =
    rw (cut-append dot t.tenant (key_tail t) (IsTenantId-Lacks t.tenant v.tenant_ok)) (
      rw (parse_of_IsTenantId t.tenant v.tenant_ok) (elim (Bool-cases (length t.scope == 0)) [
        | inl e ↦
            rw (e, split-key_of dot t.table [] dot-IsSeparator (v.table_ok, tt))
              (λ i. record {
                tenant = t.tenant;
                table = t.table;
                scope = sym (empty_scope t.scope e) i;
              })
        | inr e ↦ rw (
          e,
          split-key_of dot t.table (t.scope ∷ []) dot-IsSeparator (v.table_ok, (v.scope_ok, tt)),
        )
      ]))

subject-eq :
    (prefix : Bytes) (t : Topic)
    → IsTenantId t.tenant
    → subject prefix t ≡ ok (prefix ++ (t.tenant ++ dot ∷ key_tail t))
unfolding subject
subject-eq prefix t v = rw (parse_of_IsTenantId t.tenant v, key-eq t)

topic_key-prefix : (prefix s : Bytes) → topic_key prefix (prefix ++ s) ≡ s
unfolding topic_key
topic_key-prefix prefix s = rw (cut_prefix-append prefix s)

-- A topic of a valid tenant, with a table and a scope of bytes, has a subject under every prefix,
-- and is read back whole from that subject, as is its tenant alone.
pub parse_topic_key-subject :
    (prefix : Bytes) (t : Topic)
    → IsTopic t
    → (subj : Bytes) × (subject prefix t ≡ ok subj)
      × (parse_topic_key (topic_key prefix subj) ≡ t)
      × (key_tenant (topic_key prefix subj) ≡ some t.tenant)
unfolding key_tenant
parse_topic_key-subject prefix t v =
    let same = topic_key-prefix prefix (t.tenant ++ dot ∷ key_tail t) in
    (
      prefix ++ (t.tenant ++ dot ∷ key_tail t),
      subject-eq prefix t v.tenant_ok,
      rw same (parse_topic_key-key t v),
      rw (
        same,
        cut-append dot t.tenant (key_tail t) (IsTenantId-Lacks t.tenant v.tenant_ok),
        parse_of_IsTenantId t.tenant v.tenant_ok,
      ),
    )

-- A topic has a subject exactly if its tenant is in the grammar, whatever the prefix, the table and
-- the scope.
pub subject_iff :
    (prefix : Bytes) (t : Topic)
    → ((subj : Bytes) × (subject prefix t ≡ ok subj)) ↔ IsTenantId t.tenant
unfolding subject
subject_iff prefix t = (
  λ (subj, e). IsTenantId_of_ok (Tenant.parse t.tenant) refl e,
  λ v. (prefix ++ (t.tenant ++ dot ∷ key_tail t), subject-eq prefix t v),
)
  where
    IsTenantId_of_ok :
        (r : Result TenantError Bytes)
        → Tenant.parse t.tenant ≡ r
        → {subj : Bytes} → subject prefix t ≡ ok subj
        → IsTenantId t.tenant
    IsTenantId_of_ok (ok s) p e = ((parse_iff t.tenant s).0 p).0
    IsTenantId_of_ok (err x) p e = absurd (cc (rw p at e))

-- The stream names of a valid tenant give the tenant back, and neither is taken for the other
-- kind.
pub stream_tenant-names :
    (id : Bytes)
    → IsTenantId id
    → (stream_tenant ingest_stream_prefix (ingest_stream_name id) ≡ some id)
      × (stream_tenant dlq_stream_prefix (dlq_stream_name id) ≡ some id)
      × (stream_tenant dlq_stream_prefix (ingest_stream_name id) ≡ none)
      × (stream_tenant ingest_stream_prefix (dlq_stream_name id) ≡ none)
unfolding stream_tenant ingest_stream_name dlq_stream_name cut_prefix
stream_tenant-names id v = let own = parse_of_IsTenantId id v in (rw own, rw own, refl, refl)
