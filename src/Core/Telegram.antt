-- ===== src/Core/Telegram.antt =====
-- src/core/telegram.ts: the TPCI that goes with a destination.
use node_red_contrib_eelectr.Base.{◌==◌, if◌then◌else◌}
use node_red_contrib_eelectr.Core.Tpci.{Tpci, t_data_group, t_data_broadcast, t_data_individual}
use node_red_contrib_eelectr.Core.Cemi.{Destination, group, individual}

unfoldable pub default_tpci : Destination → Tpci
default_tpci (group a) = if a.raw == 0 then t_data_broadcast else t_data_group
default_tpci (individual a) = t_data_individual
