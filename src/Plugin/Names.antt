-- ===== src/Plugin/Names.antt =====
-- The name of a printer, in this run of the plugin and in a later one.
use bambu_farm.Base.Text.{Text}
use bambu_farm.LocalState.Selected.{load_selected_device as stored_selected_device}
use bambu_farm.Session.{load_selected_device}
use bambu_farm.Plugin.{Plugin}
