-- ===== src/Tests/Keys.antt =====
-- Keys, subjects and tenant ids of concrete topics.
use wave_house.Prelude.{ℕ, [], ◌∷◌, none, some, false, ok, All, ◌≡◌, refl, ◌↔◌, arith}
use wave_house.Prelude.Bytes.{Bytes, codes, IsByte}
use wave_house.Prelude.{◌>>=◌}
use wave_house.Keyenc.{join, check_sep, split, kept}
use wave_house.Keyenc.Laws.{split-join, IsSeparator, split-join}
use wave_house.Tenant.{IsTenantId, parse, parse_iff, is_id_byte}
use wave_house.Mq.Subject.{
  Topic, subject, topic_key, parse_topic_key, key_tenant, ingest_prefix, stream_tenant,
  ingest_stream_prefix, dlq_stream_prefix, ingest_stream_name, dlq_stream_name,
}
use wave_house.Mq.Subject.Laws.{IsTopic, parse_topic_key-subject, stream_tenant-names}
use wave_house.Chsql.Quote.{bind_unsafe}

abbrev odd_name : Bytes
odd_name = codes "a.b%c"

abbrev plain_name : Bytes
plain_name = codes "x y"

abbrev colon : ℕ
colon = 58

odd_name-IsByte : All IsByte odd_name
odd_name-IsByte = (omega arith, (omega arith, (omega arith, (omega arith, (omega arith, tt)))))

plain_name-IsByte : All IsByte plain_name
plain_name-IsByte = (omega arith, (omega arith, (omega arith, tt)))

colon-IsSeparator : IsSeparator colon
unfolding kept check_sep
colon-IsSeparator = refl

split-join_example :
    (join colon (odd_name ∷ plain_name ∷ []) >>= λ key. split key colon)
    ≡ ok (odd_name ∷ plain_name ∷ [])
split-join_example =
    split-join colon odd_name (plain_name ∷ []) colon-IsSeparator
      (odd_name-IsByte, (plain_name-IsByte, tt))

acme-IsTenantId : IsTenantId (codes "acme_1")
unfolding is_id_byte
acme-IsTenantId = record {
  nonempty = omega arith;
  short = omega arith;
  bytes = (refl, (refl, (refl, (refl, (refl, (refl, tt))))));
}

parse_iff_example :
    (parse (codes "acme_1") ≡ ok (codes "acme_1"))
    ↔ (IsTenantId (codes "acme_1") × (codes "acme_1" ≡ codes "acme_1"))
parse_iff_example = parse_iff (codes "acme_1") (codes "acme_1")

abbrev odd_topic : Topic
odd_topic = record { tenant = codes "acme_1"; table = odd_name; scope = plain_name }

odd_topic-IsTopic : IsTopic odd_topic
odd_topic-IsTopic = record {
  tenant_ok = acme-IsTenantId;
  table_ok = odd_name-IsByte;
  scope_ok = plain_name-IsByte;
}

parse_topic_key-subject_example :
    (subj : Bytes) × (subject ingest_prefix odd_topic ≡ ok subj)
    × (parse_topic_key (topic_key ingest_prefix subj) ≡ odd_topic)
    × (key_tenant (topic_key ingest_prefix subj) ≡ some (codes "acme_1"))
parse_topic_key-subject_example = parse_topic_key-subject ingest_prefix odd_topic odd_topic-IsTopic

stream_tenant-names_example :
    (stream_tenant ingest_stream_prefix (ingest_stream_name (codes "acme_1"))
      ≡ some (codes "acme_1"))
    × (stream_tenant dlq_stream_prefix (dlq_stream_name (codes "acme_1")) ≡ some (codes "acme_1"))
    × (stream_tenant dlq_stream_prefix (ingest_stream_name (codes "acme_1")) ≡ none)
    × (stream_tenant ingest_stream_prefix (dlq_stream_name (codes "acme_1")) ≡ none)
stream_tenant-names_example = stream_tenant-names (codes "acme_1") acme-IsTenantId

odd_name-safe : bind_unsafe odd_name ≡ false
unfolding bind_unsafe
odd_name-safe = refl
