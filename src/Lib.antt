-- ===== src/Lib.antt =====
-- A model of the OPC UA backend of ChimeraTK DeviceAccess, with theorems about it.
--
-- The program has these parts. The backend (src/OPC-UA-Backend.cc) opens and closes a device: it
-- fills a catalogue of the registers, connects a client to the server and hands out accessors. The
-- subscription manager (src/SubscriptionManager.cc) keeps the monitored items of the accessors that
-- wait for new data, asks the server for a subscription, and runs a thread that drives the client;
-- the client calls it back with new values. A callback of the client tells the backend of changes of
-- the connection. The version mapper (src/VersionMapper.cc) gives a version to each time stamp. The
-- catalogue is filled from the nodes of the server, from a map file (src/MapFile.cc), or from a cache
-- file of an earlier run (src/CatalogueCache.cc, src/XmlTools.cc).
--
-- Files and what they model:
--   System        the state that the manager, the backend and the accessors share: the deque of the
--                 monitored items with the addresses of its elements, subscriptionMap with its raw
--                 pointers, the thread, the flags and all pushes into the queues; what a run can end
--                 in (a result, an exception, a wait for the thread, a dangling or null pointer).
--                 Accessors are numbers, and the state has those that are alive.
--   Subscription  the operations of OPCUASubscriptionManager, each a function on that state;
--                 Accessors has what is known of the accessors of the items;
--                 Monitor has subscribe, unsubscribe and activate; Worker the thread. Board is the
--                 abstract manager, which knows items and no addresses, and Recovery what a server that
--                 takes every item leaves.
--   Callbacks     the calls of the client that come in while a service of the server is called:
--                 responses, deleted subscriptions, changes of the connection, silence.
--   Backend       open, close, connect, resetClient, activateAsyncRead and setExceptionImpl;
--                 Safety has the calls that must not throw;
--                 Operations has `perform`, any call of the device with the answers it meets;
--                 Construction is the constructor with the cache file, Destruction the end of a
--                 backend, Abandoned an accessor whose constructor throws, Recovery a device that is opened again.
--   Catalogue     addProperty; Entry is addCatalogueEntry, Browse is browseRecursive, Accessor is
--                 getRegisterAccessor_impl, Filling is getNodesFromMapfile and fillCatalogue.
--   Xml           XmlTools.cc, and a document as its parser gives it.
--   MapFile       the reader of the map file in XML; Legacy is the older style of lines.
--   Cache         the document that saveCatalogue writes; Reading is readCatalogue.
--   Managed       the ownership of the value in ManagedDataValue (src/ManagedTypes.cc).
--   NodeIds       who frees the text of a node: MapElement and OpcUABackendRegisterInfo.
--   Transfer      reading and writing of an accessor (include/OPC-UA-BackendRegisterAccessor.h);
--                 Convert has the converters between the types of the server and of the user,
--                 Notified the reading of what a subscription delivers.
--   Connection    the configuration of the client and its login (include/OPC-UA-Connection.h).
--   Parameters    createInstance.
--   Versions      getVersion.
--   Prelude       numbers, texts, maps, the deque, decimal numbers and std::stoul and std::stol.
--   Tests         each theorem below at a concrete input.
--
-- Stateful code is a function from a state to a state and how it ended. Answers of the server and the
-- callbacks that come in meanwhile are arguments, so a theorem holds for all of them. Parameters of
-- the model stand for code of other libraries: addRegister of the catalogue, RegisterPath, the parser
-- of index ranges, the references and attributes of the nodes of a server, the access modes, the
-- converters, a new version. What is asked of them is named as a hypothesis of the theorem.
--
-- Numbers of fixed width are natural numbers with the modulus written out; signed 64-bit arithmetic in
-- the version mapper and a cut to int are taken as two's complement. Loops over lists are structural.
-- The walk over the server has fuel, and it is proved that a fuel above the rank of the start is
-- enough where objects have a rank, and that no fuel is enough on a cycle. open waits for the client
-- in a loop of as many turns as the source has.
--
-- Not modelled: the mutexes (a call is one step, except that callbacks come in at calls of services, and
-- from the deletion of a subscription only its own), a look at the accessor by a push into its queue,
-- sleeps and log messages, conversions of floating point numbers, the OPC UA library and its
-- cryptography, the XML library and the file system (a file is given as what its parser or its reader
-- makes of it), and the other members of an object in its copies.
pub mod Prelude
pub mod System
pub mod Subscription
pub mod Callbacks
pub mod Backend
pub mod Catalogue
pub mod Xml
pub mod MapFile
pub mod Cache
pub mod Managed
pub mod Transfer
pub mod Connection
pub mod NodeIds
pub mod Versions
pub mod Tests
pub mod Parameters
