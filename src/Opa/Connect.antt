-- ===== src/Opa/Connect.antt =====
-- NewOpaNats of internal/middleware/opa/http.go.
use iceberg.Opa.Agent.{OpaType, OpaNats}
use iceberg.Nats.Host.{resolve_host}
use iceberg.Nats.Kv.{Kv}
use iceberg.Nats.Broker.{Broker}
use iceberg.Nats.Conn.{Gateway, get_opa_conn, get_opa_kv, on_world}
use iceberg.Netio.Exec.{Exec, ◌>>=◌, ◌>>◌, lift}
use iceberg.Common.Text.{trim_prefix}
use iceberg.Common.Url.{Url}
use iceberg.Common.{ℕ, List, [], ◌∷◌, ◌++◌}
use iceberg.Common.Go.{ret}
use iceberg.Common.Text.{Text, codes, text_eq}
use iceberg.Common.Map.{Map}

-- PolicyType
pub data PolicyType : Type 0 where
  local remote : PolicyType

pub record Opa : Type 0 where
  pub app_name : Text
  pub agent : Url
  pub timeout : ℕ
  pub policies : Map Text PolicyType
  pub opa_type : OpaType

module _ (getenv : Text → Text) {W : Type 0} where
  -- The loop over the policies: the text of a local one, a variable of the environment, is stored.
  unfoldable pub put_policies : Kv W → Text → Map Text PolicyType → Exec W Text (List Text)
  put_policies kv app_name [] = lift (ret [])
  put_policies kv app_name ((p, local) ∷ policies) = do
    let name = app_name ++ codes "_" ++ p
    kv.put name (getenv p)
    names ← put_policies kv app_name policies
    lift (ret (name ∷ names))
  put_policies kv app_name ((p, remote) ∷ policies) = do
    names ← put_policies kv app_name policies
    lift (ret (p ∷ names))

  module _ {Conn Js Queue : Type 0} (broker : Broker W Conn Js Queue) where
    -- The connection is the field `conn` of the source's record.
    unfoldable pub new_opa_nats : Opa → Exec (Gateway W Conn) Text (Conn × OpaNats)
    unfolding resolve_host get_opa_conn get_opa_kv put_policies
    new_opa_nats opa = do
      conn ← get_opa_conn broker (resolve_host getenv opa.agent.host)
      kv ← get_opa_kv broker conn (codes "OPA_STORE")
      policies ← on_world (put_policies kv opa.app_name opa.policies)
      lift (
          ret (
            conn,
            record {
              opa_type = opa.opa_type;
              subject = trim_prefix opa.agent.path (codes "/");
              policies = policies;
            },
          ))
