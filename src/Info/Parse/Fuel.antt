-- ===== src/Info/Parse/Fuel.antt =====
-- The loops of Info_Value and Info_Set end on any string.
