-- ===== src/Mq/Subject.antt =====
-- internal/mq/subject.go and Topic of internal/mq/mq.go: the subjects of the embedded broker.
-- `key` is total here: the panics of keyenc.AppendJoin need another separator or no field.
pub mod Laws
use wave_house.Prelude.{
  ℕ, List, Option, Result, [], ◌++◌, err, if◌then◌else◌, ok, some, ◌∷◌, length, none, ◌==◌,
}
use wave_house.Prelude.Bytes.{Bytes, codes, cut, cut_prefix}
use wave_house.Keyenc.{append_escape, append_fields, KeyError}
use wave_house.Keyenc
use wave_house.Tenant.{TenantError}
use wave_house.Tenant

pub record Topic : Type 0 where
  pub tenant : Bytes
  pub table : Bytes
  pub scope : Bytes

abbrev pub dot : ℕ
dot = 46

abbrev pub ingest_prefix : Bytes
ingest_prefix = codes "ingest."

abbrev pub dlq_prefix : Bytes
dlq_prefix = codes "dlq."

abbrev pub ingest_stream_prefix : Bytes
ingest_stream_prefix = codes "INGEST_"

abbrev pub dlq_stream_prefix : Bytes
dlq_stream_prefix = codes "DLQ_"

-- The fields after the tenant: the table, and the scope if there is one.
unfoldable pub key_fields : Topic → List Bytes
key_fields t = if length t.scope == 0 then t.table ∷ [] else t.table ∷ t.scope ∷ []

-- `none` is a panic of AppendJoin.
unfoldable pub key : Topic → Result KeyError Bytes
key t = Keyenc.append_join (t.tenant ++ dot ∷ []) dot (key_fields t)

-- Why a topic has no subject: its tenant is outside the grammar, or a panic.
pub data SubjectError : Type 0 where
  bad_tenant : TenantError → SubjectError
  key_panic : KeyError → SubjectError

abbrev pub prefixed : Bytes → Result KeyError Bytes → Result SubjectError Bytes
prefixed prefix (ok k) = ok (prefix ++ k)
prefixed prefix (err e) = err (key_panic e)

abbrev pub checked {ℓ} : {A : Type ℓ} → Result TenantError Bytes → A → (TenantError → A) → A
checked (ok _) a f = a
checked (err e) a f = f e

unfoldable pub subject : Bytes → Topic → Result SubjectError Bytes
subject prefix t =
    checked (Tenant.parse t.tenant) (prefixed prefix (key t)) (λ e. err (bad_tenant e))

-- strings.TrimPrefix: the text itself where the prefix is missing.
abbrev pub trimmed : Bytes → Option Bytes → Bytes
trimmed s none = s
trimmed s (some t) = t

unfoldable pub topic_key : Bytes → Bytes → Bytes
topic_key prefix subj = trimmed subj (cut_prefix prefix subj)

abbrev pub parsed_id : Result TenantError Bytes → Option Bytes
parsed_id (ok id) = some id
parsed_id (err e) = none

abbrev pub first_part : Bytes → Option (Bytes × Bytes) → Bytes
first_part s none = s
first_part s (some (a, b)) = a

unfoldable pub key_tenant : Bytes → Option Bytes
key_tenant k = parsed_id (Tenant.parse (first_part k (cut dot k)))

abbrev pub no_tenant : Bytes → Topic
no_tenant tail = record { tenant = []; table = tail; scope = [] }

-- The `switch` of `parseTopicKey` on the number of fields.
abbrev pub topic_of_fields : Bytes → Bytes → List Bytes → Topic
topic_of_fields tail id (table ∷ []) = record { tenant = id; table = table; scope = [] }
topic_of_fields tail id (table ∷ scope ∷ []) = record { tenant = id; table = table; scope = scope }
topic_of_fields tail id _ = no_tenant tail

abbrev pub topic_of_parts : Bytes → Result TenantError Bytes → Result KeyError (List Bytes) → Topic
topic_of_parts tail (ok id) (ok fields) = topic_of_fields tail id fields
topic_of_parts tail _ _ = no_tenant tail

abbrev pub topic_of_cut : Bytes → Option (Bytes × Bytes) → Topic
topic_of_cut tail none = no_tenant tail
topic_of_cut tail (some (first, rest)) =
    topic_of_parts tail (Tenant.parse first) (Keyenc.split rest dot)

unfoldable pub parse_topic_key : Bytes → Topic
parse_topic_key tail = topic_of_cut tail (cut dot tail)

unfoldable pub ingest_stream_name : Bytes → Bytes
ingest_stream_name id = ingest_stream_prefix ++ id

unfoldable pub dlq_stream_name : Bytes → Bytes
dlq_stream_name id = dlq_stream_prefix ++ id

abbrev pub parsed_rest : Option Bytes → Option Bytes
parsed_rest none = none
parsed_rest (some rest) = parsed_id (Tenant.parse rest)

unfoldable pub stream_tenant : Bytes → Bytes → Option Bytes
stream_tenant prefix name = parsed_rest (cut_prefix prefix name)
