-- ===== src/Follow/Removal.antt =====
-- The copies that no volume names any more.
use per_node_csi_driver.Host.{Host}
