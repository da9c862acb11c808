-- ===== src/Quotas.antt =====
-- internal/platform/config/quota.go: the limits of authenticated calls and their check.
use go_webhook_delivery.Common.{
  ◌*◌, ◌%◌, ◌≡◌, refl, Bool, true, not, ◌&&◌, ◌||◌, ◌==◌, ℤ, pos, pos_part, ltb_ℤ,
}
use go_webhook_delivery.Golang.Time.{second}

pub record QuotaPolicy : Type 0 where
  pub global : ℤ
  pub workspace : ℤ
  pub api_key : ℤ
  pub resource : ℤ
  pub window : ℤ

pub record QuotaConfig : Type 0 where
  pub ingest : QuotaPolicy
  pub endpoint_write : QuotaPolicy
  pub query : QuotaPolicy
  pub replay : QuotaPolicy

abbrev pub default_quotas : QuotaConfig
default_quotas = record {
  ingest = record {
    global = pos 10000;
    workspace = pos 200;
    api_key = pos 200;
    resource = pos 0;
    window = pos second;
  };
  endpoint_write = record {
    global = pos 6000;
    workspace = pos 60;
    api_key = pos 60;
    resource = pos 0;
    window = pos (60 * second);
  };
  query = record {
    global = pos 30000;
    workspace = pos 300;
    api_key = pos 300;
    resource = pos 0;
    window = pos (60 * second);
  };
  replay = record {
    global = pos 1000;
    workspace = pos 10;
    api_key = pos 10;
    resource = pos 2;
    window = pos (60 * second);
  };
}

unfoldable pub valid_policy : QuotaPolicy → Bool
valid_policy p = not (
    ltb_ℤ p.global (pos 1)
    || ltb_ℤ (pos 1000000) p.global
    || ltb_ℤ p.workspace (pos 1)
    || ltb_ℤ p.global p.workspace
    || ltb_ℤ p.api_key (pos 1)
    || ltb_ℤ p.workspace p.api_key
    || ltb_ℤ p.resource (pos 0)
    || ltb_ℤ p.api_key p.resource
    || ltb_ℤ p.window (pos second)
    || ltb_ℤ (pos (3600 * second)) p.window
    || not (pos_part p.window % second == 0))

unfoldable pub validate_quotas : QuotaConfig → Bool
unfolding valid_policy
validate_quotas q =
    valid_policy q.ingest
    && valid_policy q.endpoint_write
    && valid_policy q.query
    && valid_policy q.replay

default_quotas_accepted : validate_quotas default_quotas ≡ true
unfolding validate_quotas valid_policy
default_quotas_accepted = refl
