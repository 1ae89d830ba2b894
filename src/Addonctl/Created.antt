-- ===== src/Addonctl/Created.antt =====
-- pkg/addonctl/addonctl.go: which commands `create` an addon, and which one.
use addon_manager.Api.Addon.{Addon}
use addon_manager.Objects.{Objects}
