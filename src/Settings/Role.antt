-- ===== src/Settings/Role.antt =====
-- src/reac_role_cfg.c: the role that a segment may be set to. The values for the two roles, the key
-- and the words for the states are libreac's, and parameters.
use reac_pw.Prelude.{ℕ, Bool, true, false, Option, none, some, ◌==◌, if◌then◌else◌}
use reac_pw.Prelude.Int.{ℤ, pos, negsuc}
use reac_pw.Prelude.Bytes.{CString}
use reac_pw.Settings.{Parsed, unusable, found, Props, value_pod_to_int, prop_parse}
use reac_pw.Settings.Rate.{Role, master, slave}

unfoldable pub cfg_changes : Role → Role → Bool
cfg_changes master master = false
cfg_changes master slave = true
cfg_changes slave master = true
cfg_changes slave slave = false

-- The key and the values REAC_CFG_ROLE_MASTER and REAC_CFG_ROLE_SLAVE, and the two states.
pub record Vocabulary : Type 0 where
  pub key : CString
  pub value_master : ℕ
  pub value_slave : ℕ
  pub applied : CString
  pub reestablish_pending : CString

module _ (words : Vocabulary) where
  unfoldable pub cfg_apply_state : Role → Role → CString
  cfg_apply_state current requested =
      if cfg_changes current requested then words.reestablish_pending else words.applied

  abbrev pub role_of_flag : Option ℤ → Parsed Role
  role_of_flag none = unusable
  role_of_flag (some (negsuc n)) = unusable
  role_of_flag (some (pos flag)) =
      if flag == words.value_master
      then found master
      else if flag == words.value_slave
      then found slave
      else unusable

  unfoldable pub role_prop_parse : {Float : Type 0} → (Float → Option ℤ) → Props Float → Parsed Role
  role_prop_parse nearest props =
      prop_parse words.key (λ v. role_of_flag (value_pod_to_int nearest v)) props
