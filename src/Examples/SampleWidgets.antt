-- ===== src/Examples/SampleWidgets.antt =====
-- A concrete `findChild`: the first widget of the name, whatever its class.
use qt_messenger.Client.Widgets.{first, is_named}
use qt_messenger.Client.Widgets.Children.{QtWidgets, first_kept}
use qt_messenger.Examples.SampleQt.{sample_qt}

instance abbrev pub sample_widgets : QtWidgets
sample_widgets = record {
  find_child = λ kind name es. first (is_named name) es;
  find_child_only = λ kind name es e named same. first_kept (is_named name) e es _ named;
}
