-- ===== src/Lib.antt =====
-- The programs of this repository, modelled and verified: a threaded web server, system calls on
-- the weights of processes, two memory allocators, and a shell.
--
-- The web server (Threads and synchronization/). main accepts connections and queues them,
-- worker threads take them from the queue, answer and close them.
--   Queue.antt is FIFO_queue.c. The globals head and tail, the nodes and the integers that the
--   nodes point to are a record Memory; each function is a command on it, which may fault at a
--   null or dangling pointer. What malloc returned is the argument fresh, and what rand
--   returned the function rand. Queue/Chain.antt relates a memory to the list of its entries,
--   Queue/Fifo.antt, Queue/Dequeue.antt and Queue/RandomDrop.antt (over Queue/Cuts.antt) are
--   about enqueue, dequeue and drop_head, and random_drop, Queue/Order.antt about histories of
--   calls. The loop of random_drop has fuel, of which the length of the queue is enough.
--   Server.antt is server.c: the globals, the workers and main are a record Server, and each
--   critical section is one function on it (take and finish of thread_function; accept, append
--   and handle_overload of main). Server/Steps.antt joins them to a relation, in which any
--   thread may go next. main takes the mutex again only where handle_overload waits; the
--   enqueue behind it, which runs without the mutex, is one step too, so that races inside it
--   are not seen. The queue is the list that Queue.antt refines; drop_random uses the list
--   function of Queue/RandomDrop.antt. close of a pointer closes no connection in the model.
--   Request.antt is request.c: what requestHandle decides on a request, over the lines that the
--   connection delivers, what stat says of a file, and the arrays' contents before they are
--   written, which are arguments. The loop of requestReadhdrs has fuel; more than there are
--   header lines is enough where a blank one comes. Request/Texts.antt has the texts of the
--   answers, Request/Scans.antt is about the words of the request line, and
--   Request/Lengths.antt compares them with their Content-Length. Request/Connections.antt is
--   requestHandle with the lines that the Rio package reads, which Request/Wires.antt compares
--   with the lines alone. fork, exec, mmap, the lengths of the arrays and what is written of a
--   text are not modelled.
--   Rio.antt is the Rio package of helper.c, over the results that the calls of read and write
--   return, one after the other. Rio/Streams.antt says which bytes these are, and the files
--   beside it are about lines, blocks and writes. rio_readnb has fuel of the number of bytes
--   it is asked for, which is enough.
--   Wrappers.antt is the rest of helper.c: the functions that end the program where a call
--   fails, over what the calls return and the texts of strerror, and in Wrappers/Sockets.antt
--   the functions that open sockets, with the calls they make. Wrappers/Opens.antt and
--   Wrappers/Robust.antt are about these.
--   Server/Startup.antt is main of server.c up to its loop, with its arguments as texts; an int
--   is its word of 32 bits. Server/Starts.antt is about it.
--
-- The system calls (Linux Kernel/newSyscalls_imp.c) are Kernel.antt, over the fields of
-- task_struct that they use. The recursion over the children and the loop over the parents have
-- fuel, for which the depth and the number of ancestors are enough.
--
-- The allocator (Virtual memory/malloc_1.cpp) is Malloc.antt. The list from root to end is a
-- list of blocks with their addresses, the bytes of all payloads are a function, and the program
-- break is a number, which sbrk moves where the system grants it; that is an argument of each
-- call. A result none is undefined behaviour, a read beyond the break included.
-- Malloc/Layout.antt is about where the blocks lie, Malloc/Allocates.antt, Malloc/Frees.antt and
-- Malloc/Contents.antt (over Malloc/Owners.antt) about the calls, Malloc/Histories.antt about
-- their sequences and Malloc/Totals.antt about the statistics.
--
-- The allocator that splits blocks (Virtual memory/malloc_2.cpp) is Arena.antt, with the
-- metadata in an explicit memory, where a null or dangling pointer is a fault; memmove
-- overwrites the metadata that lie under its target. What sbrk or mmap returns is an argument;
-- the loops have fuel, one unit for each block and one more, which is enough where the lists
-- end. Arena/Linked.antt relates a memory to a list of blocks; Arena/Fits.antt is about the
-- search and Arena/Counts.antt about the statistics. sfree, srealloc and the statistics are
-- Arena/Frees.antt, Arena/Resizes.antt and Arena/Statistics.antt; Arena/Splits.antt is about
-- split and combine, Arena/Maps.antt about mapped blocks.
--
-- The job list (JobsList in Linux Shell/Commands.h) is Jobs.antt, and Jobs/Entries.antt for the
-- entries, adding and the searches: the three vectors, the texts of the commands, which jobs
-- share, and the signals sent. What time returns and which processes have ended are arguments.
-- Identifiers are numbers without a bound. Jobs/Ids.antt is about the identifiers,
-- Jobs/Histories.antt about sequences of calls, Jobs/Finds.antt about the searches,
-- Jobs/News.antt about new entries, Jobs/Places.antt about the places of jobs, and
-- Jobs/Sweeps.antt about the removal of finished jobs. Parsing.antt is the functions at the top
-- of Linux Shell/Commands.cpp that take a command line apart, on texts without a bound; none is
-- an access out of bounds.
--
-- The shell (Linux Shell/) is Shell.antt: the members of SmallShell, the directory and the
-- output of its process, the fields of a command, and what is printed. Shell/Create.antt has the
-- branches of CreateCommand and Shell/Choose.antt the choice among them; Shell/Prints.antt is
-- what the job list prints, Shell/Signals.antt the two handlers. Shell/Directories.antt,
-- Shell/Control.antt and Shell/Execute.antt are execute of the commands, Shell/Loop.antt
-- redirections, pipes, executeCommand and the loop of main. What chdir, open, read, fork, kill
-- and waitpid answer are arguments (Os for the whole run, Turn for one command); a key pressed
-- is handled during a wait only. In the model every wait returns, after the keys that are
-- pressed, and every file that can be read is finite. The descriptor 1 and those that
-- redirections save are what they lead to. A command breaks where it reads out of bounds,
-- follows a null or unset pointer or throws. The fuel of execute counts redirections inside each
-- other, of which the length of the line is enough. A pipe is the wait of the shell and, apart,
-- the two processes with their copies of the shell. Process groups, the interrupts of calls by
-- signals, the lifetimes of commands and the text of perror are not modelled.
-- Shell/Branches.antt, Shell/Letters.antt and Shell/Arguments.antt are about the commands made,
-- Shell/Keeps.antt, Shell/Created.antt, Shell/Ends.antt, Shell/Termination.antt and
-- Shell/Outputs.antt about the end and the output of every command, Shell/Returning.antt about
-- cd, Shell/NewJobs.antt, Shell/Stops.antt and Shell/Foreground.antt about jobs,
-- Shell/Faults.antt about lines that go wrong.
--
-- Base.antt holds what these share: tests on numbers, lists, stores with addresses, machine
-- words and C strings. Tests.antt applies the theorems to concrete inputs.
--
-- Not modelled: what the program prints on its standard output in the server; the contents of
-- socket addresses and of the structures that calls of the system fill in; the functions of the
-- job list that nothing calls (printstoppedlist, print_non_built_in_cmds); and the files of the
-- Linux kernel that the repository changes by a line.
pub mod Base
pub mod Kernel
pub mod Queue
pub mod Server
pub mod Request
pub mod Rio
pub mod Malloc
pub mod Jobs
pub mod Parsing
pub mod Shell
pub mod Arena
pub mod Wrappers
mod Tests
