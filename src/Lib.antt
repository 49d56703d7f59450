-- ===== src/Lib.antt =====
-- The window side of the Bedrock gateway (internal/gw): what a Bedrock client's inventory screens
-- and item-stack requests mean in the Java-shaped world behind it.
--
-- A Bedrock client keeps its inventory authoritatively and sends requests (take, place, swap, drop,
-- craft...) that name containers and slots of its own numbering. The world speaks Java's window
-- protocol: one numbering of a window's slots and one click per change. Between them the gateway
-- keeps a mirror of the open window. A request is resolved against the mirror into the slots that it
-- touches and the steps that the world takes, or is refused as a whole; the world's frames overwrite
-- the mirror.
--
-- The parts, with the code that they follow:
-- - Prelude: lists by native index, int32 arithmetic on bit patterns (the Go code's int32 is a number
--   below 2 ^ 32, with the comparisons and the wrap-around written out), and the results ok, refuse
--   and panic, where panic is an index out of range.
-- - Protocol, Item: the names of the Bedrock protocol library that the code compares, and
--   attach.ItemStack. Container ids are symbols, as the code never computes with them.
-- - Slots: internal/gw/inventory.go, the two numberings of the player's window (javaToBedrockSlot,
--   and bedrockToJavaSlot of itemstack.go) and the container classes.
-- - Layouts: internal/gw/window.go, horse.go, crafter.go, beacon.go and books.go, the layouts of the
--   container windows and the table of menus.
-- - Mirror: internal/gw/itemstack.go and crafter.go, invMirror with its closures mapIn and mapOut, its
--   setters and playerView. Mirror.Invariant has the shape, Mirror.Mapping the round trip of the
--   closures, Mirror.Frames what a frame leaves and shows, Mirror.Writes
--   the bounds of the writes.
-- - Moves: internal/gw/itemstack.go, transfer, swap, shed and dropHeld; Moves.Totals counts items.
-- - Recipes: internal/gw/crafting.go and smithloom.go, the recipe set, the stonecutter's and the
--   smithing table's recipes.
-- - Requests: applyRequest. Requests.Transfers walks the plain actions, Requests.Crafts the crafts
--   (applyCraft, takeResult), Requests.Creative the creative ones, Requests.Clicks makes the click
--   and reads it as the world does.
-- - Windows: internal/gw/window.go, winState, and the properties of a menu that its mirror keeps
--   (enchantProp and enchantOptions of enchanting.go, crafterProp of crafter.go, beaconProp of
--   beacon.go). Windows.Menus has the round trip for every menu.
-- - Session: internal/gw/session.go, the frames and packets of play that read or write the mirrors,
--   as one step; Session.Reach has the states that a session can come to.
-- - Shows: internal/gw/window.go and inventory.go, sendWindowItems, sendWindowSlot and
--   sendPlayerInventory, and the answers of respondStackRequest in itemstack.go.
-- - Books: internal/gw/books.go. Books.Content has parseBook and its readers, Books.Pages a book's component as
--   the world writes it; editPages stands in Books itself.
-- - Cracks: internal/gw/blockcrack.go, the tracker of block-break progress.
-- - Maps: internal/gw/maps.go, mapStore and the patch that a frame draws.
-- - Nbt: internal/gw/nbtjava.go. Nbt.Reader is the standard library's byte reader, Nbt.Read the reader of
--   Java's NBT, Nbt.Written the format as the world writes it.
-- - Skulls: internal/gw/skulls.go, the cache of player heads and the fake players that wear them:
--   Skulls.Cache has the state, Skulls.Visible the visibility pass, Skulls.Steps the methods,
--   Skulls.Chunks the heads of a chunk; Skulls.Range has which heads a pass keeps.
-- - Scores: internal/gw/scoreboard.go. Scores.Board has the state, Scores.Frames the world's frames and the
--   packets that they make, Scores.Client what a client has of them.
-- - Dims: internal/gw/dims.go, the lookup of a dimension and the detour between two.
-- - Trades: internal/gw/trades.go. Trades.Offers has parseTrades, the prices and the rows of the trade screen,
--   Trades.RoundTrip the frame as the world writes it, Trades.Rows the craft requests that name a row.
-- - Tests: runs and examples at concrete inputs.
--
-- Methods of invMirror hold its lock throughout, so that each is one step on the mirror's state. A
-- Go map is an association list with unique keys; where the code iterates over one (the touched
-- slots), the theorem holds for every order. Loops are structural recursion and need no fuel:
-- takeResult's runs for a count that is a byte divided by the result's count. The one loop with fuel is
-- that of a compound in readJavaTag: it takes a byte at least in each round, and has one round more than
-- there are bytes left. readJavaTag's own depth is counted down from 33.
--
-- Not modelled: the bytes of the packets that go out (they are the protocol library's) and the
-- rendering of an item (bedrockStack), the session's
-- sockets and goroutines, and the generated tables, which are parameters here: the creative listing,
-- the stonecutting and smithing tables and the rows of the loom's patterns (Requests.Crafts.Tables).
-- Entities, sounds, particles, skins, signs and the other translations of world frames keep
-- no state that the window side reads. The renumbering of enchantments (bedrockEnchantment) and the
-- colour of a map's packed byte (mapColour) are parameters as well. The distances to a
-- head are floats whose bit patterns are compared, the UUIDs, the VarInts and slots of the shared library, the float
-- product of a price, the hash of a
-- scoreboard line and the tables of colours are parameters. A horse's screen is taken to have
-- fewer than 2 ^ 26 columns.
pub mod Prelude
pub mod Protocol
pub mod Item
pub mod Slots
pub mod Layouts
pub mod Mirror
pub mod Moves
pub mod Recipes
pub mod Requests
pub mod Windows
pub mod Session
pub mod Trades
pub mod Books
pub mod Cracks
pub mod Maps
pub mod Nbt
pub mod Skulls
pub mod Scores
pub mod Dims
pub mod Shows
pub mod Tests
