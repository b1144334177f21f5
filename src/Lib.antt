-- ===== src/Lib.antt =====
-- A model of the rules of the game server (server/src).
--
-- Parts, and where they are:
-- - Progress: levels from experience, Player::addExperience and Player::removeExperience of
--   server/src/player.cpp, and the curve Player::getExpForLevel of server/src/player.h.
--   Curve is the curve, Level the level that a total reaches, Gain and Loss the two loops, Stats what
--   a level adds, Undo the two together.
-- - Training: skills and the magic level, Player::addSkillAdvance, removeSkillTries, addManaSpent and
--   removeManaSpent of server/src/player.cpp. Rank is the level that a total of tries reaches,
--   Advance the loop that gains, Fall and Drain the loops that lose, RoundTrip the two together.
-- - Party: server/src/party.cpp, the calls Game::player...Party... of server/src/game.cpp, and a
--   logout (server/src/player.cpp). Players and parties are numbers into an explicit heap. Shared is
--   shared experience, Calls the calls, Invariant what holds of the heap; Disband, Joining, Fits,
--   Leaving and Invitations prove it for each operation, Consistency for each call, History for every
--   sequence of calls. Levels is about shared experience, Refusal about a script that refuses.
-- - Xtea: the cipher of server/src/xtea.cpp, on lists of bytes.
-- - Names: the tree of the names online, server/src/wildcardtree.cpp. Members says which names it has
--   and what insert adds, Removal what remove takes, Completion what findOne finds.
-- - Container: what containers hold and weigh, server/src/container.cpp, on an explicit heap of things.
--   Walk is the walk up the parents, Linked what is put in or taken out, Changes, Reweighed and Replaced
--   the operations, Queries what queryAdd allows.
-- - Area: areas of effect, server/src/matrixarea.cpp. Copy is the loops over slices, Cells where each
--   cell comes from, Turns the laws, Created the areas that createArea makes.
-- - Dispatch: the dispatcher and its tasks, server/src/tasks.cpp, as steps of its thread and of others.
--   Order is about the order of tasks, Accepted about what was accepted, Liveness about their turn.
-- - Bans: the limit on connections, Ban::acceptConnection of server/src/ban.cpp. Rate says how many
--   attempts in a row are accepted.
-- - Conditions: server/src/condition.cpp and condition.h, and the loops that save and load them in
--   server/src/iologindata.cpp. Types and Attr are the enumerations, Fields what serialize writes, Readers what
--   unserializeProp reads, Load the loops, Classes how one is made. Fuel, Encoding, Header, Intervals,
--   RoundTrip and Storage are about saving and loading, Lost and Rates about what is not loaded. Life is
--   how a condition starts, is executed and is added to; Damages is ConditionDamage, Floats, Rounding and
--   Nearing are the arithmetic of float that makes its list, Rounds is about the list,
--   Lasting and Dealing its use, Merging what is added to it, Params its parameters.
-- - Creature: the conditions of a creature, server/src/creature.cpp. Removing is the
--   removals, Executing the execution, Adding the additions. Keys, Visited and Unique are about the key of
--   a condition, Behind and Execution about the execution, Removal and Addition about the other
--   operations, Generic about generic conditions.
-- - Network: messages and how they are framed, server/src/networkmessage.cpp, networkmessage.h,
--   outputmessage.h, protocol.cpp, connection.cpp, and the checksum of tools.cpp. Framing sends and
--   receives; Buffer is about bytes in a buffer, Written about writing, Fields about reading back,
--   Checksum about the checksum, Sending and Delivery about what is sent and what is received of it.
-- - Stream: PropStream and PropWriteStream of server/src/fileloader.h, and Loader::getProps of
--   server/src/fileloader.cpp.
-- - Base: Boolean tests, lists, sets as lists, machine words with their wrap-around, integers.
--
-- Network sends through the cipher of Xtea; it and Conditions write numbers as Stream does. A creature
-- calls its conditions through the record Behaviour, which the generic class of condition fills. A field
-- of a machine width keeps its wrap-around written out. The progression reports to the parties by the
-- event shared_experience_updated, where the source calls
-- Party::updateSharedExperience; a party asks the level of a player through Env.level_of.
--
-- Fuel: the loop of addExperience gets one more than the experience, that of addSkillAdvance one more
-- than what was gained, and those that remove get the level (or one more); each round uses one. The
-- loops up the parents of a container get the depth of the containers, that of the checksum the number
-- of bytes, those that load conditions one more than the bytes, and that of generateDamageList one
-- more than the amount. Rounding to a float halves 200 times at most: what it rounds is below 2^33, that is
-- 2^182 units of 2^-149, and has 24 digits after 158 halvings.
--
-- Parameters: what scripts answer (g_events), the configuration, the clock, the quotient of doubles of
-- getBasisPointLevel, the powers of doubles of Vocation::getReqSkillTries and getReqMana,
-- what the tasks of the dispatcher do, the magic field on a creature's tile where its damages go on, and
-- the virtual functions of a condition where a creature keeps it, with the conditions that an execution
-- removes.
--
-- Not modelled: what clients are told, storage, scripting, the map, items and combat; what a condition
-- does to its creature; of containers the iterator and the search for a place, of messages the items
-- and doubles, and errors and timeouts of sockets.
pub mod Base
pub mod Area
pub mod Bans
pub mod Conditions
pub mod Container
pub mod Creature
pub mod Dispatch
pub mod Names
pub mod Network
pub mod Party
pub mod Progress
pub mod Stream
pub mod Training
pub mod Xtea
